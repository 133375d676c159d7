-- ===== src/Units/Repository.antt =====
-- src/modules/units/unit_repository.py over the Prisma client.
use pizzaria_api.Prelude.{ℕ, Bool, true, Option, none, some, List, [], ◌∷◌, ◌++◌, if◌then◌else◌}
use pizzaria_api.Text.{codes}
use pizzaria_api.Errors.{DomainError, conflict_error, not_found_error}
use pizzaria_api.Action.{Action, pure, or_raise, ◌>>=◌, ◌>>◌}
use pizzaria_api.World.{Context, W, query, execute, settle, settle_unique, utc_now}
use pizzaria_api.Pagination.{skip_of}
use pizzaria_api.Prisma.Rows.{UnitRow, UnitFields, UnitUpdateInput, UnitCond}

abbrev pub no_change : UnitUpdateInput
no_change = record {
  name = none;
  cnpj = none;
  email = none;
  phone = none;
  street = none;
  number = none;
  neighborhood = none;
  city = none;
  state = none;
  zip = none;
  is_active = none;
  deleted_at = none;
}

abbrev pub listed : Bool → List UnitCond
listed include_inactive =
    if include_inactive
    then UnitCond.not_deleted ∷ []
    else UnitCond.not_deleted ∷ UnitCond.is_active_is true ∷ []

module _ (ctx : Context) where
  abbrev pub unit_not_found : ℕ → DomainError
  unit_not_found unit_id =
      not_found_error (codes "Unit " ++ ctx.platform.uuid_text unit_id ++ codes " not found")

  abbrev pub by_id : ℕ → List UnitCond
  by_id unit_id = UnitCond.id_is (ctx.platform.uuid_text unit_id) ∷ UnitCond.not_deleted ∷ []

  unfoldable pub create : UnitFields → Action (W ctx) UnitRow
  create fields = do
    reply ← execute ctx (ctx.client.unit.create fields)
    settle_unique ctx
        (conflict_error (codes "Unit with CNPJ " ++ fields.cnpj ++ codes " already exists")) reply

  unfoldable pub get_by_id : ℕ → Action (W ctx) (Option UnitRow)
  get_by_id unit_id = query ctx (ctx.client.unit.find_first (by_id unit_id))

  unfoldable pub list_paginated : ℕ → ℕ → Bool → Action (W ctx) (List UnitRow × ℕ)
  list_paginated page page_size include_inactive = do
    items ←
        query ctx
          (ctx.client.unit.find_many (listed include_inactive) (skip_of page page_size) page_size)
    total ← query ctx (ctx.client.unit.count (listed include_inactive))
    pure (items, total)

  unfoldable pub update : ℕ → UnitUpdateInput → Action (W ctx) UnitRow
  update unit_id changes = do
    existing ← query ctx (ctx.client.unit.find_first (by_id unit_id))
    or_raise existing (unit_not_found unit_id)
    reply ← execute ctx (ctx.client.unit.update (ctx.platform.uuid_text unit_id) changes)
    row ←
        settle_unique ctx
          (conflict_error (codes "Unit with the provided unique value already exists")) reply
    or_raise row (unit_not_found unit_id)

  unfoldable pub soft_delete : ℕ → Action (W ctx) (Unit {0})
  soft_delete unit_id = do
    existing ← query ctx (ctx.client.unit.find_first (by_id unit_id))
    or_raise existing (unit_not_found unit_id)
    now ← utc_now ctx
    reply ← execute ctx (
        ctx.client.unit.update (ctx.platform.uuid_text unit_id)
          (record no_change { deleted_at = some now }))
    settle ctx reply
    pure tt

-- `UnitRepositoryProtocol`: what `UnitService` asks of a repository.
pub record UnitRepositoryProtocol (ctx : Context) : Type 0 where
  pub create : UnitFields → Action (W ctx) UnitRow
  pub get_by_id : ℕ → Action (W ctx) (Option UnitRow)
  pub list_paginated : ℕ → ℕ → Bool → Action (W ctx) (List UnitRow × ℕ)
  pub update : ℕ → UnitUpdateInput → Action (W ctx) UnitRow
  pub soft_delete : ℕ → Action (W ctx) (Unit {0})

-- `get_unit_repository` of unit_dependencies.py
abbrev pub get_unit_repository : (ctx : Context) → UnitRepositoryProtocol ctx
get_unit_repository ctx = record {
  create = create ctx;
  get_by_id = get_by_id ctx;
  list_paginated = list_paginated ctx;
  update = update ctx;
  soft_delete = soft_delete ctx;
}
