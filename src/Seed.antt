-- ===== src/Seed.antt =====
-- src/infra/seed.py, the step of a deployment that fills the table of roles, and the check of it at
-- the start of the server in src/infra/database.py.
pub mod Roles
use pizzaria_api.Prelude.{List, [], ◌∷◌, map, if◌then◌else◌}
use pizzaria_api.Prelude.Dict.{Str, contains}
use pizzaria_api.Text.{codes}
use pizzaria_api.Action.{Action, pure, ◌>>=◌, ◌>>◌}
use pizzaria_api.World.{Context, W, query, execute, settle}
use pizzaria_api.Prisma.Rows.{RoleRow, RoleCond, UnitFields, UnitCond}

-- `ROLES`
abbrev pub default_roles : List (Str × Str)
default_roles =
    (codes "CUSTOMER", codes "Cliente")
    ∷ (codes "STAFF", codes "Funcionário")
    ∷ (codes "ADMIN", codes "Administrador")
    ∷ []

-- `DEFAULT_UNIT`
abbrev pub default_unit : UnitFields
default_unit = record {
  name = codes "Unidade Principal";
  cnpj = codes "12345678000195";
  email = codes "contato@pizzaria.com";
  phone = codes "41999999999";
  street = codes "Rua Principal";
  number = codes "100";
  neighborhood = codes "Centro";
  city = codes "Curitiba";
  state = codes "PR";
  zip = codes "80000000";
}

abbrev pub names_of : List (Str × Str) → List Str
names_of = map (λ p. p.0)

-- `[name for name in expected if name not in existing]`
unfoldable pub missing_from : List Str → List Str → List Str
missing_from existing [] = []
missing_from existing (name ∷ expected) =
    if contains name existing
    then missing_from existing expected
    else name ∷ missing_from existing expected

module _ (ctx : Context) where
  -- The loop of `seed_roles`.
  unfoldable pub seed_each : List (Str × Str) → Action (W ctx) (Unit {0})
  seed_each [] = pure tt
  seed_each ((name, description) ∷ roles) = do
    reply ← execute ctx (
        ctx.client.role.upsert (RoleCond.name_is name)
          (record { name = name; description = description }))
    settle ctx reply
    seed_each roles

  unfoldable pub seed_roles : Action (W ctx) (Unit {0})
  unfolding seed_each
  seed_roles = seed_each default_roles

  unfoldable pub find_missing_roles : Action (W ctx) (List Str)
  unfolding missing_from
  find_missing_roles = do
    existing ← query ctx (ctx.client.role.find_all (RoleCond.name_in (names_of default_roles) ∷ []))
    pure (missing_from (map (λ r. r.name) existing) (names_of default_roles))

  -- `seed_unit`; a row with the CNPJ stays as it is.
  unfoldable pub seed_unit : Action (W ctx) (Unit {0})
  seed_unit = do
    reply ← execute ctx (ctx.client.unit.upsert (UnitCond.cnpj_is default_unit.cnpj) default_unit)
    settle ctx reply
    pure tt
