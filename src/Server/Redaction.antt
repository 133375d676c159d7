-- ===== src/Server/Redaction.antt =====
-- That nothing bound to a line of the log shows what src/core/logger.py hides, through the calls of
-- src/core/middlewares.py, src/infra/database.py and src/main.py.
use pizzaria_api.Prelude.{
  All-append, ℕ, ◌+◌, ◌-◌, ◌≡◌, false, Option, none, some, List, [], ◌∷◌, All, leb, inl, inr,
  Bool-cases,
}
use pizzaria_api.Prelude.Dict.{Str}
use pizzaria_api.Text.{codes}
use pizzaria_api.Errors.{
  Exception, JsonResponse, domain, request_validation, unhandled, validation_exception_handler,
}
use pizzaria_api.Action.{Action, Result, ok, failed}
use pizzaria_api.World.{Context}
use pizzaria_api.Prisma.Table.{Reply, returned, raised}
use pizzaria_api.Email.{warns_email_disabled}
use pizzaria_api.Seed.{find_missing_roles}
use pizzaria_api.Logger.{Entries, no_entries, is_sensitive, text}
use pizzaria_api.Logger.Redaction.{AllRedacted, patch-AllRedacted}
use pizzaria_api.Logger.Lines.{Level, info, warning, error, Line, write, severity}
use pizzaria_api.Server.{
  Process, ConnectionCall, connected, disconnected, log, log_exception, inside,
}
use pizzaria_api.Action.Keeps.{Keeps, then_Keeps, resume_Keeps, finally-Keeps}
use pizzaria_api.Server.Middleware.{
  Request, Response, serve_logged, dispatch, finish, started_extra, finished_extra,
  round_to_hundredths,
}
use pizzaria_api.Server.App.{or_handled, or_raised, or_generic, serve, serve_each}
use pizzaria_api.Server.Lifespan
use pizzaria_api.Server.Lifespan.{
  warn_missing, warn_if_roles_missing, warn_if_email_disabled, connection, close, run, lifespan,
}

module _ (ctx : Context) where
  -- What is bound to a line has the mark under every sensitive key.
  abbrev pub IsClean : Process ctx → Type 0
  IsClean p = All (λ line. AllRedacted ctx.platform.unicode line.extra) p.lines

  module _ (plain : is_sensitive ctx.platform.unicode (text (codes "request_id")) ≡ false) where
    write-AllRedacted :
        (id : Option Str) (line : Line)
        → All
            (λ l. AllRedacted ctx.platform.unicode l.extra)
            (write ctx.platform.unicode ctx.settings.log_level id line)
    unfolding write
    write-AllRedacted id line =
        elim (Bool-cases (leb (severity ctx.settings.log_level) (severity line.level))) [
          | inl shown ↦ rw shown (patch-AllRedacted ctx.platform.unicode id line.extra plain, tt)
          | inr hidden ↦ rw hidden tt
        ]

    pub log-IsClean :
        (level : Level) (message : Str) (extra : Entries)
        → Keeps IsClean (log ctx level message extra)
    unfolding log
    log-IsClean level message extra p h = All-append _ p.lines _ h (
        write-AllRedacted p.request_id
          (record { level = level; message = message; extra = extra; exception = none }))

    log_exception-IsClean :
        (level : Level) (message : Str) (exc : Exception)
        → Keeps IsClean (log_exception ctx level message exc)
    unfolding log_exception
    log_exception-IsClean level message exc p h = All-append _ p.lines _ h (
        write-AllRedacted p.request_id
          (record { level = level; message = message; extra = no_entries; exception = some exc }))

    finish-IsClean :
        (perf : ℕ → ℕ) (id : Str) (request : Request) (start : ℕ) (response : Response)
        → Keeps IsClean (finish ctx perf id request start response)
    unfolding log
    finish-IsClean perf id request start response p h =
        log-IsClean info (codes "request_finished")
          (finished_extra request response.status_code (round_to_hundredths (perf p.ticks - start)))
          (record p { ticks = p.ticks + 1 }) h

    serve_logged-IsClean :
        (perf : ℕ → ℕ) (id : Str) (request : Request) (call_next : Action (Process ctx) Response)
        → Keeps IsClean call_next
        → Keeps IsClean (serve_logged ctx perf id request call_next)
    unfolding serve_logged log
    serve_logged-IsClean perf id request call_next kept p h =
        let q = record (log ctx info (codes "request_started") (started_extra request) p).1 {
          ticks = p.ticks + 1;
        } in
        resume_Keeps IsClean (finish ctx perf id request (perf p.ticks)) (call_next q).0
          (call_next q).1 (finish-IsClean perf id request (perf p.ticks))
          (kept q (log-IsClean info (codes "request_started") (started_extra request) p h))

    dispatch-IsClean :
        (perf : ℕ → ℕ) (request : Request) (call_next : Action (Process ctx) Response)
        → Keeps IsClean call_next
        → Keeps IsClean (dispatch ctx perf request call_next)
    unfolding dispatch
    dispatch-IsClean perf request call_next kept p h =
        serve_logged-IsClean perf _ request call_next kept _ h

    or_raised-IsClean :
        (r : Option JsonResponse) (p : Process ctx) → IsClean p → IsClean (or_raised ctx r p).1
    or_raised-IsClean none p h = h
    or_raised-IsClean (some response) p h = h

    or_handled-IsClean :
        (r : Result Response × Process ctx) → IsClean r.1 → IsClean (or_handled ctx r).1
    or_handled-IsClean (ok response, p) h = h
    or_handled-IsClean (failed (domain e), p) h = h
    or_handled-IsClean (failed (request_validation errors), p) h =
        or_raised-IsClean (validation_exception_handler ctx.platform.str errors) p h
    or_handled-IsClean (failed unhandled, p) h = h

    or_generic-IsClean :
        (r : Result Response × Process ctx) → IsClean r.1 → IsClean (or_generic ctx r).1
    or_generic-IsClean (ok response, p) h = h
    or_generic-IsClean (failed e, p) h =
        log_exception-IsClean error (codes "unhandled_exception") e p h

    serve-IsClean :
        (perf : ℕ → ℕ) (request : Request) (endpoint : Action (Process ctx) Response)
        → Keeps IsClean endpoint
        → (p : Process ctx) → IsClean p
        → IsClean (serve ctx perf request endpoint p).1
    unfolding serve
    serve-IsClean perf request endpoint kept p h = or_generic-IsClean _ (
        dispatch-IsClean perf request (λ q. or_handled ctx (endpoint q))
          (λ q k. or_handled-IsClean (endpoint q) (kept q k)) p h)

    serve_each-IsClean :
        (perf : ℕ → ℕ) (requests : List (Request × Action (Process ctx) Response))
        → All (λ r. Keeps IsClean r.1) requests
        → Keeps IsClean (serve_each ctx perf requests)
    unfolding serve_each
    serve_each-IsClean perf [] kept p h = h
    serve_each-IsClean perf ((request, endpoint) ∷ rest) (k, kept) p h =
        serve_each-IsClean perf rest kept _ (serve-IsClean perf request endpoint k p h)

    warn_if_roles_missing-IsClean : Keeps IsClean (warn_if_roles_missing ctx)
    unfolding warn_if_roles_missing
    warn_if_roles_missing-IsClean =
        then_Keeps IsClean (inside ctx (find_missing_roles ctx)) _ (λ p h. h) warned
      where
        warned : (names : List Str) → Keeps IsClean (warn_missing ctx names)
        warned [] p h = h
        warned (name ∷ names) p h = log-IsClean warning (codes "roles_not_seeded") _ p h

    warn_if_email_disabled-IsClean : Keeps IsClean (warn_if_email_disabled ctx)
    unfolding warn_if_email_disabled
    warn_if_email_disabled-IsClean p h = elim (Bool-cases (warns_email_disabled ctx.settings)) [
      | inl t ↦ rw t (log-IsClean warning (codes "email_delivery_disabled") _ p h)
      | inr f ↦ rw f h
    ]

    connection-IsClean :
        (call : ConnectionCall) (r : Reply (Unit {0})) → Keeps IsClean (connection ctx call r)
    connection-IsClean call (returned _) p h = h
    connection-IsClean call (raised e) p h = h

    run-IsClean :
        (c d : Reply (Unit {0})) (serving : Action (Process ctx) (Unit {0}))
        → Keeps IsClean serving
        → Keeps IsClean (run ctx c d serving)
    unfolding run
    run-IsClean c d serving kept =
        then_Keeps IsClean (warn_if_roles_missing ctx) _ warn_if_roles_missing-IsClean (λ _.
          then_Keeps IsClean (warn_if_email_disabled ctx) _ warn_if_email_disabled-IsClean (λ _.
            then_Keeps IsClean (log ctx info (codes "server_started") (Lifespan.started_extra ctx))
              _ (log-IsClean info (codes "server_started") (Lifespan.started_extra ctx))
              (λ _. kept)))

    close-IsClean : (c d : Reply (Unit {0})) → Keeps IsClean (close ctx c d)
    unfolding close
    close-IsClean c d =
        then_Keeps IsClean (connection ctx disconnected d) _ (connection-IsClean disconnected d)
          (λ _. log-IsClean info (codes "database_disconnected") no_entries)

    -- Whatever the server does with its requests, if the endpoints bind no value under a sensitive
    -- key themselves that stays, then from the start of the process to its end what is bound to a
    -- line of the log has the mark under every sensitive key, at any depth; the Unicode tables must
    -- leave the key `request_id` alone. It says nothing of the traceback that follows a line with
    -- an exception.
    pub lifespan-IsClean :
        (c d : Reply (Unit {0})) (perf : ℕ → ℕ)
        (requests : List (Request × Action (Process ctx) Response))
        → All (λ r. Keeps IsClean r.1) requests
        → Keeps IsClean (lifespan ctx c d (serve_each ctx perf requests))
    unfolding lifespan
    lifespan-IsClean c d perf requests kept =
        then_Keeps IsClean (connection ctx connected c) _ (connection-IsClean connected c) (λ _.
          then_Keeps IsClean (log ctx info (codes "database_connected") no_entries) _
            (log-IsClean info (codes "database_connected") no_entries)
            (λ _.
              finally-Keeps IsClean (run ctx c d (serve_each ctx perf requests)) (close ctx c d)
                (run-IsClean c d _ (serve_each-IsClean perf requests kept)) (close-IsClean c d)))
