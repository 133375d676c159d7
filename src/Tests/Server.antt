-- ===== src/Tests/Server.antt =====
-- The middleware, the application and the lifespan of the server at concrete requests.
use pizzaria_api.Prelude.{ℕ, ◌*◌, ◌≡◌, refl, some, none, List, [], ◌∷◌, ◌⊎◌, false}
use pizzaria_api.Prelude.Dict.{lookup, str_eq, contains}
use pizzaria_api.Text.{codes, decimal, lower, upper, is_ascii, lower_ascii, upper_ascii}
use pizzaria_api.Errors.{unhandled, not_found_error, domain}
use pizzaria_api.Action.{Action, ok, failed}
use pizzaria_api.Prisma.Table.{returned}
use pizzaria_api.Logger.{is_sensitive, text}
use pizzaria_api.Logger.Lines.{Setting, log_level, normalize_log_level, warning}
use pizzaria_api.Server.{Process, connected, disconnected}
use pizzaria_api.Server.Middleware.{
  Request, Response, request_id_header, hundredths_text, round_to_hundredths,
}
use pizzaria_api.Server.Middleware.Outcome.{next_id, opened}
use pizzaria_api.Server.App.{serve, serve_each}
use pizzaria_api.Server.App.Outcome.{serve_lem}
use pizzaria_api.Server.Lifespan.{lifespan}
use pizzaria_api.Server.Lifespan.Outcome.{lifespan_lem}
use pizzaria_api.Server.Redaction.{IsClean, lifespan-IsClean}
use pizzaria_api.Health.{health_check, readiness_check}
use pizzaria_api.Health.Ready.{responding, readiness_check_lem}
use pizzaria_api.Tests.Setup.{process, start, plain_unicode}

-- `perf_counter` reads a third of a millisecond later each time.
abbrev perf : ℕ → ℕ
perf i = i * 333333

abbrev idle : Process process
idle = record { world = start; request_id = none; lines = []; ticks = 0; calls = [] }

abbrev request : Request
request = record { method = codes "GET"; path = codes "/health" }

abbrev plain_answer : Response
plain_answer = record { status_code = 200; headers = [] }

abbrev endpoint : Action (Process process) Response
endpoint p = (ok plain_answer, p)

abbrev missing : Action (Process process) Response
missing p = (failed (domain (not_found_error (codes "User not found"))), p)

abbrev broken : Action (Process process) Response
broken p = (failed unhandled, p)

-- Two thirds of a millisecond.
hundredths_of_two_thirds : hundredths_text (round_to_hundredths 666666) ≡ codes "0.67"
unfolding hundredths_text round_to_hundredths decimal
hundredths_of_two_thirds = refl

warning_level : log_level plain_unicode (Setting.text (codes "Warning")) ≡ some warning
unfolding log_level normalize_log_level upper is_ascii upper_ascii lookup str_eq
warning_level = refl

serve_lem_example :
    ((serve process perf request missing idle).0.status_code ≡ 404)
    × (lookup request_id_header (serve process perf request missing idle).0.headers
        ≡ some (next_id process idle))
    × ((serve process perf request missing idle).1.request_id ≡ none)
unfolding not_found_error
serve_lem_example =
    serve_lem process perf request missing
      (failed (domain (not_found_error (codes "User not found")))) idle
      (opened process request idle) refl

abbrev requests : List (Request × Action (Process process) Response)
requests = (request, endpoint) ∷ (request, broken) ∷ []

-- A server that raises.
abbrev serving : Action (Process process) (Unit {0})
serving p = (failed unhandled, p)

lifespan_lem_example :
    ((returned tt ≡ returned tt)
      × ((lifespan process (returned tt) (returned tt) serving idle).1.calls
          ≡ connected ∷ disconnected ∷ []))
    ⊎ (lifespan process (returned tt) (returned tt) serving idle
        ≡ (failed unhandled, record idle { calls = connected ∷ [] }))
lifespan_lem_example =
    lifespan_lem process (returned tt) (returned tt) serving idle (λ calls p h. h)

request_id-open : is_sensitive plain_unicode (text (codes "request_id")) ≡ false
unfolding is_sensitive lower is_ascii lower_ascii contains str_eq
request_id-open = refl

lifespan-IsClean_example :
    IsClean process
      (lifespan process (returned tt) (returned tt) (serve_each process perf requests) idle).1
lifespan-IsClean_example =
    lifespan-IsClean process request_id-open (returned tt) (returned tt) perf requests
      ((λ p h. h), ((λ p h. h), tt)) idle tt

readiness_check_lem_example :
    ((serve process perf request (responding process (health_check process)) idle).0.status_code
      ≡ 200)
    × ((serve process perf request
          (responding process (readiness_check process))
          idle).0.status_code
        ≡ 200)
readiness_check_lem_example = readiness_check_lem process perf request idle
