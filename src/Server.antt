-- ===== src/Server.antt =====
-- What the process has around the requests: the id in the context variable `request_id_var`, the
-- lines of the log (src/core/logger.py), the readings of `perf_counter`, and the calls of
-- `connect` and `disconnect` (src/infra/database.py).
pub mod Middleware
pub mod Lifespan
pub mod Deploy
pub mod App
pub mod Redaction
use pizzaria_api.Prelude.{ℕ, ◌+◌, Option, none, some, List, [], ◌∷◌, ◌++◌}
use pizzaria_api.Prelude.Dict.{Str}
use pizzaria_api.Action.{Action, Result, ok}
use pizzaria_api.World.{Context, World, W}
use pizzaria_api.Logger.{Entries, no_entries}
use pizzaria_api.Errors.{Exception}
use pizzaria_api.Logger.Lines.{Level, Line, write}

pub data ConnectionCall : Type 0 where
  connected : ConnectionCall
  disconnected : ConnectionCall

pub record Process (ctx : Context) : Type 0 where
  pub world : World ctx
  pub request_id : Option Str
  pub lines : List Line
  pub ticks : ℕ
  pub calls : List ConnectionCall

module _ (ctx : Context) where
  -- A call that stays within the `World`.
  abbrev pub inside : {A : Type 0} → Action (W ctx) A → Action (Process ctx) A
  inside m p = let (r, w) = m p.world in (r, record p { world = w })

  -- `logger.bind(extra).log(level, message)`
  unfoldable pub log : Level → Str → Entries → Action (Process ctx) (Unit {0})
  log level message extra p = (
    ok tt,
    record p {
      lines =
          p.lines
          ++ write ctx.platform.unicode ctx.settings.log_level p.request_id
              (record { level = level; message = message; extra = extra; exception = none });
    },
  )

  -- `logger.opt(exception=exc).log(level, message)`
  unfoldable pub log_exception : Level → Str → Exception → Action (Process ctx) (Unit {0})
  log_exception level message exc p = (
    ok tt,
    record p {
      lines =
          p.lines
          ++ write ctx.platform.unicode ctx.settings.log_level p.request_id (record {
            level = level;
            message = message;
            extra = no_entries;
            exception = some exc;
          });
    },
  )
