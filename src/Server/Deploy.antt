-- ===== src/Server/Deploy.antt =====
-- The deploy step that src/infra/seed.py is when it runs by itself.
pub mod Seeded
use pizzaria_api.Text.{codes}
use pizzaria_api.Action.{Action, finally, ◌>>=◌, ◌>>◌}
use pizzaria_api.World.{Context}
use pizzaria_api.Prisma.Table.{Reply}
use pizzaria_api.Seed.{seed_roles, seed_unit, default_roles, default_unit, names_of}
use pizzaria_api.Logger.{entry, no_entries, text, scalar, list}
use pizzaria_api.Logger.Lines.{info}
use pizzaria_api.Server.{Process, connected, disconnected, inside, log}
use pizzaria_api.Server.Lifespan.{connection, texts}

module _ (ctx : Context) where
  -- `seed_roles` with the line that it logs.
  abbrev pub seed_roles_logged : Action (Process ctx) (Unit {0})
  seed_roles_logged = do
    inside ctx (seed_roles ctx)
    log ctx info (codes "roles_seeded")
        (entry (text (codes "roles")) (list (texts (names_of default_roles))) no_entries)

  -- `seed_unit` likewise.
  abbrev pub seed_unit_logged : Action (Process ctx) (Unit {0})
  seed_unit_logged = do
    inside ctx (seed_unit ctx)
    log ctx info (codes "unit_seeded")
        (entry (text (codes "unit")) (scalar default_unit.name) no_entries)

  unfoldable pub main : Reply (Unit {0}) → Reply (Unit {0}) → Action (Process ctx) (Unit {0})
  main on_connect on_disconnect = do
    connection ctx connected on_connect
    finally (do seed_roles_logged; seed_unit_logged) (connection ctx disconnected on_disconnect)
