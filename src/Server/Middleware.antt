-- ===== src/Server/Middleware.antt =====
-- src/core/middlewares.py: `LoggingMiddleware`. Durations are taken from whole nanoseconds.
pub mod Outcome
use pizzaria_api.Prelude.{
  ℕ, ◌+◌, ◌-◌, ◌*◌, ◌/◌, ◌%◌, ◌==◌, ◌&&◌, ◌||◌, Bool, Option, some, List, [], ◌∷◌, ◌++◌, ltb,
  if◌then◌else◌,
}
use pizzaria_api.Prelude.Dict.{Str, Dict, insert}
use pizzaria_api.Text.{codes, decimal}
use pizzaria_api.Action.{Action, Result, ok, finally, pure, ◌>>=◌, ◌>>◌}
use pizzaria_api.World.{Context, draw_random}
use pizzaria_api.Logger.{Entries, entry, no_entries, text, scalar}
use pizzaria_api.Logger.Lines.{info}
use pizzaria_api.Server.{Process, inside, log}

-- Of a `Request` of starlette, and of a `Response` with the names of its headers in small letters.
pub record Request : Type 0 where
  pub method : Str
  pub path : Str

pub record Response : Type 0 where
  pub status_code : ℕ
  pub headers : Dict Str

-- The nearest hundredth of a millisecond, the even one of two.
unfoldable pub round_to_hundredths : ℕ → ℕ
round_to_hundredths ns =
    let below = ns / 10000 in
    if ltb (ns % 10000) 5000 || (ns % 10000 == 5000 && below % 2 == 0) then below else below + 1

-- The text of a float with two decimals.
unfoldable pub hundredths_text : ℕ → Str
hundredths_text h =
    decimal (h / 100)
    ++ codes "."
    ++ decimal (h % 100 / 10)
    ++ (if h % 10 == 0 then [] else decimal (h % 10))

abbrev pub request_id_header : Str
request_id_header = codes "x-request-id"

-- What the two lines bind.
abbrev pub started_extra : Request → Entries
started_extra request =
    entry (text (codes "method")) (scalar request.method)
      (entry (text (codes "path")) (scalar request.path) no_entries)

abbrev pub finished_extra : Request → ℕ → ℕ → Entries
finished_extra request status duration = entry (text (codes "method")) (scalar request.method) (
    entry (text (codes "path")) (scalar request.path) (
      entry (text (codes "status")) (scalar (decimal status))
        (entry (text (codes "duration_ms")) (scalar (hundredths_text duration)) no_entries)))

module _ (ctx : Context) (perf : ℕ → ℕ) where
  abbrev pub perf_counter : Action (Process ctx) ℕ
  perf_counter p = (ok (perf p.ticks), record p { ticks = p.ticks + 1 })

  -- `request_id_var.set(id)`: the token is the value that it replaces.
  abbrev pub set_request_id : Str → Action (Process ctx) (Option Str)
  set_request_id id p = (ok p.request_id, record p { request_id = some id })

  -- `request_id_var.reset(token)`
  abbrev pub reset_request_id : Option Str → Action (Process ctx) (Unit {0})
  reset_request_id token p = (ok tt, record p { request_id = token })

  -- What follows the response.
  abbrev pub finish : Str → Request → ℕ → Response → Action (Process ctx) Response
  finish request_id request start_time response = do
    end_time ← perf_counter
    log ctx info (codes "request_finished")
        (finished_extra request response.status_code (round_to_hundredths (end_time - start_time)))
    pure (record response { headers = insert request_id_header request_id response.headers })

  -- The `try` block.
  unfoldable pub serve_logged :
      Str → Request → Action (Process ctx) Response → Action (Process ctx) Response
  unfolding hundredths_text round_to_hundredths
  serve_logged request_id request call_next = do
    log ctx info (codes "request_started") (started_extra request)
    start_time ← perf_counter
    response ← call_next
    finish request_id request start_time response

  unfoldable pub dispatch : Request → Action (Process ctx) Response → Action (Process ctx) Response
  unfolding serve_logged
  dispatch request call_next = do
    drawn ← inside ctx (draw_random ctx)
    token ← set_request_id (ctx.platform.uuid_text drawn)
    finally (serve_logged (ctx.platform.uuid_text drawn) request call_next) (reset_request_id token)
