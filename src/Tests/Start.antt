-- ===== src/Tests/Start.antt =====
-- The deploy step of src/infra/seed.py at a concrete database.
use pizzaria_api.Prelude.{◌≡◌, refl, none, [], ◌∷◌, All}
use pizzaria_api.Prelude.Dict.{str_eq, str_eq_refl, contains}
use pizzaria_api.Action.{ok}
use pizzaria_api.Prisma.Table.{returned}
use pizzaria_api.Prisma.Memory.{memory_table, find}
use pizzaria_api.Prisma.Memory.Tables.{Tables, roles-Laws, units-Laws}
use pizzaria_api.Seed.{seed_roles, seed_each, seed_unit, find_missing_roles, missing_from}
use pizzaria_api.Seed.Roles.{Misspelled}
use pizzaria_api.Server.{Process, connected, disconnected, log}
use pizzaria_api.Server.Deploy.{main}
use pizzaria_api.Server.Deploy.Seeded.{HasDefaultUnit, main-find_missing_roles}
use pizzaria_api.Tests.Setup.{process, start}

abbrev besides_roles : Tables → Tables
besides_roles db = record db { roles = [] }

abbrev besides_units : Tables → Tables
besides_units db = record db { units = [] }

abbrev idle : Process process
idle = record { world = start; request_id = none; lines = []; ticks = 0; calls = [] }

abbrev seeded : Process process
seeded = (main process (returned tt) (returned tt) idle).1

seeds : main process (returned tt) (returned tt) idle ≡ (ok tt, seeded)
unfolding main log seed_roles seed_each seed_unit memory_table find str_eq
seeds = refl

checks : find_missing_roles process seeded.world ≡ (ok [], seeded.world)
unfolding main log find_missing_roles seed_roles seed_each seed_unit memory_table find str_eq
    contains missing_from
checks = refl

main-find_missing_roles_example :
    All
      (Misspelled process (λ db. db.roles) besides_roles roles-Laws str_eq_refl seeded.world.db)
      []
    × HasDefaultUnit process
        (λ db. db.roles)
        (λ db. db.units)
        besides_roles
        besides_units
        roles-Laws
        units-Laws
        (λ a b e i. (e i).roles)
        str_eq_refl
        seeded.world.db
    × (seeded.calls ≡ connected ∷ disconnected ∷ [])
main-find_missing_roles_example =
    main-find_missing_roles process (λ db. db.roles) (λ db. db.units) besides_roles besides_units
      roles-Laws units-Laws (λ a b e i. (e i).roles) str_eq_refl (returned tt) (returned tt) idle
      seeded [] seeded.world seeds checks
