-- ===== src/Units/Reach/Services.antt =====
-- The methods of `UnitService` in src/modules/units/unit_service.py, and `seed_unit` of
-- src/infra/seed.py, on a table in which every CNPJ is in normal form.
use pizzaria_api.Prelude.{ℕ, refl, false, List, [], ◌∷◌}
use pizzaria_api.Prelude.Dict.{str_eq}
use pizzaria_api.Action.{Action, or_raise, raise_if, ◌>>=◌}
use pizzaria_api.Action.Keeps.{
  Preserves-pure, Preserves-raise, Preserves-raise_if, Preserves-or_raise, Preserves-then,
}
use pizzaria_api.World.{Context, W, Db, execute, settle, or_unhandled}
use pizzaria_api.World.Keeps.{KeepsDb-settle, KeepsDb-or_unhandled, KeepsDb-execute}
use pizzaria_api.Prisma.Table.{IsAtomic}
use pizzaria_api.Prisma.Rows.{UnitRow, UnitFields, UnitCond}
use pizzaria_api.Prisma.Meaning.{unit_meaning}
use pizzaria_api.Seed.{seed_unit, default_unit}
use pizzaria_api.Units.Cnpj.Laws.{IsCnpj, validate_cnpj_iff}
use pizzaria_api.Units.Cnpj.{validate_cnpj, check_digit, weighted_sum}
use pizzaria_api.Units.Schema.{UpdateUnitRequest, update_input, has_no_updates}
use pizzaria_api.Units.Schema.Accepted.{GivesCnpj}
use pizzaria_api.Units.Repository
use pizzaria_api.Units.Repository.{get_unit_repository}
use pizzaria_api.Units.Service
use pizzaria_api.Pagination.{build}
use pizzaria_api.Units.Repository.{unit_not_found}
use pizzaria_api.Units.Service.Writes.{empty_update}
use pizzaria_api.Units.Service.{summary_of_first, to_response, to_responses}
use pizzaria_api.Units.Controller.{get_current_unit}
use pizzaria_api.Units.Reach.{
  Safe, added-AllCnpj, Repository-create-Safe, Repository-update-Safe, Repository-soft_delete-Safe,
  Repository-get_by_id-Safe, Repository-list_paginated-Safe,
}

default_unit-IsCnpj : IsCnpj default_unit.cnpj
unfolding validate_cnpj str_eq check_digit weighted_sum
default_unit-IsCnpj = (validate_cnpj_iff default_unit.cnpj).0 refl

module _ (ctx : Context) (rows : Db ctx → List UnitRow)
    (atomic : IsAtomic ctx.client.unit (unit_meaning ctx.client.same) rows) where
  pub Service-create-Safe :
      (fields : UnitFields)
      → IsCnpj fields.cnpj
      → Safe ctx rows atomic (Service.create ctx (get_unit_repository ctx) fields)
  unfolding Service.create
  Service-create-Safe fields c =
      Preserves-then (Repository.create ctx fields) _
        (Repository-create-Safe ctx rows atomic fields c)
        (λ raw. KeepsDb-or_unhandled ctx _ (to_response ctx raw))

  -- What runs once the service found the row.
  found-Safe :
      {A : Type 0} (unit_id : ℕ) (f : UnitRow → Action (W ctx) A)
      → ((row : UnitRow) → Safe ctx rows atomic (f row))
      → Safe ctx rows atomic (
          Repository.get_by_id ctx unit_id >>= λ found.
          or_raise found (unit_not_found ctx unit_id) >>= f)
  found-Safe unit_id f k =
      Preserves-then (Repository.get_by_id ctx unit_id) _
        (Repository-get_by_id-Safe ctx rows atomic unit_id)
        (λ found.
          Preserves-then (or_raise found (unit_not_found ctx unit_id)) f
            (Preserves-or_raise found (unit_not_found ctx unit_id)) k)

  pub Service-get_by_id-Safe :
      (unit_id : ℕ) → Safe ctx rows atomic (Service.get_by_id ctx (get_unit_repository ctx) unit_id)
  unfolding Service.get_by_id
  Service-get_by_id-Safe unit_id =
      found-Safe unit_id _ (λ raw. KeepsDb-or_unhandled ctx _ (to_response ctx raw))

  pub Service-update-Safe :
      (unit_id : ℕ) (request : UpdateUnitRequest)
      → GivesCnpj (update_input request).cnpj
      → Safe ctx rows atomic (Service.update ctx (get_unit_repository ctx) unit_id request)
  unfolding Service.update
  Service-update-Safe unit_id request g = found-Safe unit_id _ (λ _.
      Preserves-then (raise_if (has_no_updates request) empty_update) _
        (Preserves-raise_if (has_no_updates request) empty_update)
        (λ _.
          Preserves-then (Repository.update ctx unit_id (update_input request)) _
            (Repository-update-Safe ctx rows atomic unit_id (update_input request) g)
            (λ raw. KeepsDb-or_unhandled ctx _ (to_response ctx raw))))

  pub Service-delete-Safe :
      (unit_id : ℕ) → Safe ctx rows atomic (Service.delete ctx (get_unit_repository ctx) unit_id)
  unfolding Service.delete
  Service-delete-Safe unit_id =
      found-Safe unit_id _ (λ _. Repository-soft_delete-Safe ctx rows atomic unit_id)

  pub Service-list_paginated-Safe :
      (page page_size : ℕ)
      → Safe ctx rows atomic
          (Service.list_paginated ctx (get_unit_repository ctx) page page_size false)
  unfolding Service.list_paginated
  Service-list_paginated-Safe page page_size =
      Preserves-then (Repository.list_paginated ctx page page_size false) _
        (Repository-list_paginated-Safe ctx rows atomic page page_size false)
        (λ found.
          Preserves-then (or_unhandled ctx (to_responses ctx found.0)) _
            (KeepsDb-or_unhandled ctx _ (to_responses ctx found.0))
            (λ items.
              Preserves-then (or_unhandled ctx (build page page_size found.1)) _
                (KeepsDb-or_unhandled ctx _ (build page page_size found.1))
                (λ meta. Preserves-pure _)))

  pub get_current_unit-Safe : Safe ctx rows atomic (get_current_unit ctx)
  unfolding get_current_unit Service.get_current
  get_current_unit-Safe =
      Preserves-then (Repository.list_paginated ctx 1 1 false) _
        (Repository-list_paginated-Safe ctx rows atomic 1 1 false) (λ found. first found.0)
    where
      first : (raws : List UnitRow) → Safe ctx rows atomic (summary_of_first ctx raws)
      first [] = Preserves-raise _
      first (raw ∷ raws) = Preserves-pure _

  pub seed_unit-Safe : Safe ctx rows atomic (seed_unit ctx)
  unfolding seed_unit
  seed_unit-Safe =
      Preserves-then
        (execute ctx (ctx.client.unit.upsert (UnitCond.cnpj_is default_unit.cnpj) default_unit)) _
        (KeepsDb-execute ctx _ _ (λ db h.
          added-AllCnpj ctx rows atomic default_unit db _ default_unit-IsCnpj h
            (atomic.upserts (UnitCond.cnpj_is default_unit.cnpj) default_unit db)))
        (λ reply.
          Preserves-then (settle ctx reply) _ (KeepsDb-settle ctx _ reply) (λ _. Preserves-pure tt))
