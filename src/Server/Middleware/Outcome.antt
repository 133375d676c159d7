-- ===== src/Server/Middleware/Outcome.antt =====
-- What `dispatch` of src/core/middlewares.py leaves, whatever the application behind it does.
use pizzaria_api.Prelude.{none}
use pizzaria_api.Prelude.{ℕ, ◌+◌, ◌-◌, ◌≡◌, Option, some, List, ◌++◌}
use pizzaria_api.Prelude.Dict.{Str, insert}
use pizzaria_api.Text.{codes}
use pizzaria_api.Action.{Action, Result, ok, failed}
use pizzaria_api.World.{Context}
use pizzaria_api.Logger.{Entries}
use pizzaria_api.Logger.Lines.{Line, info, write}
use pizzaria_api.Server.{Process, log}
use pizzaria_api.Server.Middleware.{
  Request, Response, round_to_hundredths, request_id_header, started_extra, finished_extra,
  dispatch,
}

module _ (ctx : Context) where
  -- The lines that a call to the log adds.
  abbrev pub written : Option Str → Str → Entries → List Line
  written request_id message extra =
      write ctx.platform.unicode ctx.settings.log_level request_id
        (record { level = info; message = message; extra = extra; exception = none })

  -- The id of the next request.
  abbrev pub next_id : Process ctx → Str
  next_id p = ctx.platform.uuid_text (ctx.random p.world.draws)

  -- What the application behind the middleware finds.
  abbrev pub opened : Request → Process ctx → Process ctx
  opened request p = record p {
    world = record p.world { draws = p.world.draws + 1 };
    request_id = some (next_id p);
    lines = p.lines ++ written (some (next_id p)) (codes "request_started") (started_extra request);
    ticks = p.ticks + 1;
  }

  module _ (perf : ℕ → ℕ) where
    -- What leaves the middleware for what the application behind it gave.
    abbrev pub dispatched :
        Request → Process ctx → Result Response → Process ctx → Result Response × Process ctx
    dispatched request p (ok response) q = (
      ok (record response { headers = insert request_id_header (next_id p) response.headers }),
      record q {
        request_id = p.request_id;
        ticks = q.ticks + 1;
        lines =
            q.lines
            ++ written q.request_id (codes "request_finished") (
                finished_extra request response.status_code
                  (round_to_hundredths (perf q.ticks - perf p.ticks)));
      },
    )
    dispatched request p (failed e) q = (failed e, record q { request_id = p.request_id })

    pub dispatch_lem :
        (request : Request) (call_next : Action (Process ctx) Response) (p : Process ctx)
        (r : Result Response) (q : Process ctx)
        → call_next (opened request p) ≡ (r, q)
        → dispatch ctx perf request call_next p ≡ dispatched request p r q
    unfolding dispatch log
    dispatch_lem request call_next p (ok response) q e = rw e
    dispatch_lem request call_next p (failed x) q e = rw e
