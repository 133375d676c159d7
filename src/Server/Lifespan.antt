-- ===== src/Server/Lifespan.antt =====
-- src/infra/database.py: what the server does before its first request and after its last one; and
-- src/__main__.py. The answers of `db.connect()` and `db.disconnect()` are parameters.
pub mod Outcome
use pizzaria_api.Prelude.{ℕ, Bool, true, false, List, [], ◌∷◌, ◌++◌, if◌then◌else◌}
use pizzaria_api.Prelude.Dict.{Str}
use pizzaria_api.Text.{codes, decimal}
use pizzaria_api.Errors.{unhandled}
use pizzaria_api.Action.{Action, Result, ok, failed, finally, pure, ◌>>=◌, ◌>>◌}
use pizzaria_api.World.{Context, Settings, Environment, development, production, test}
use pizzaria_api.Prisma.Table.{Reply, returned, raised}
use pizzaria_api.Seed.{find_missing_roles}
use pizzaria_api.Email.{warns_email_disabled}
use pizzaria_api.Logger.{Entries, Items, entry, no_entries, item, no_items, text, scalar, list}
use pizzaria_api.Logger.Lines.{info, warning}
use pizzaria_api.Server.{Process, ConnectionCall, connected, disconnected, inside, log}

-- A list of texts, as a value of the log.
abbrev pub texts : List Str → Items
texts [] = no_items
texts (s ∷ ss) = item (scalar s) (texts ss)

module _ (ctx : Context) where
  abbrev pub warn_missing : List Str → Action (Process ctx) (Unit {0})
  warn_missing [] = pure tt
  warn_missing (name ∷ names) = log ctx warning (codes "roles_not_seeded") (
      entry (text (codes "missing")) (list (texts (name ∷ names)))
        (entry (text (codes "fix")) (scalar (codes "poe db-setup")) no_entries))

  unfoldable pub warn_if_roles_missing : Action (Process ctx) (Unit {0})
  warn_if_roles_missing = do missing ← inside ctx (find_missing_roles ctx); warn_missing missing

  unfoldable pub warn_if_email_disabled : Action (Process ctx) (Unit {0})
  warn_if_email_disabled p =
      (if warns_email_disabled ctx.settings
          then log ctx warning (codes "email_delivery_disabled") (
              entry (text (codes "missing"))
                (list (texts (codes "SMTP_HOST" ∷ codes "SMTP_SENDER" ∷ []))) no_entries)
          else pure tt)
        p

  -- A call of the connection, which raises what nobody catches.
  abbrev pub connection : ConnectionCall → Reply (Unit {0}) → Action (Process ctx) (Unit {0})
  connection call (returned _) p = (ok tt, record p { calls = p.calls ++ call ∷ [] })
  connection call (raised e) p = (failed unhandled, record p { calls = p.calls ++ call ∷ [] })

  abbrev pub started_extra : Entries
  started_extra =
      entry (text (codes "host")) (scalar ctx.settings.host)
        (entry (text (codes "port")) (scalar (decimal ctx.settings.port)) no_entries)

  module _ (on_connect on_disconnect : Reply (Unit {0})) where
    -- The `finally` block.
    unfoldable pub close : Action (Process ctx) (Unit {0})
    close = do
      connection disconnected on_disconnect
      log ctx info (codes "database_disconnected") no_entries

    -- The `try` block; what the server does while it runs stands for the `yield`.
    unfoldable pub run : Action (Process ctx) (Unit {0}) → Action (Process ctx) (Unit {0})
    unfolding warn_if_roles_missing warn_if_email_disabled
    run serving = do
      warn_if_roles_missing
      warn_if_email_disabled
      log ctx info (codes "server_started") (
          entry (text (codes "host")) (scalar ctx.settings.host)
            (entry (text (codes "port")) (scalar (decimal ctx.settings.port)) no_entries))
      serving

    unfoldable pub lifespan : Action (Process ctx) (Unit {0}) → Action (Process ctx) (Unit {0})
    unfolding run close
    lifespan serving = do
      connection connected on_connect
      log ctx info (codes "database_connected") no_entries
      finally (run serving) close

abbrev is_development : Environment → Bool
is_development development = true
is_development production = false
is_development test = false

-- The arguments of `uvicorn.run`.
pub record RunArguments : Type 0 where
  pub app : Str
  pub host : Str
  pub port : ℕ
  pub reload : Bool

unfoldable pub main : Settings → RunArguments
main settings = record {
  app = codes "src.main:app";
  host = settings.host;
  port = settings.port;
  reload = is_development settings.app_env;
}
