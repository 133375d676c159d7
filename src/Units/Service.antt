-- ===== src/Units/Service.antt =====
-- src/modules/units/unit_service.py: `UnitService`.
pub mod Deletion
pub mod Listing
pub mod Writes
use pizzaria_api.Prelude.{ℕ, Bool, true, false, Option, none, some, List, [], ◌∷◌}
use pizzaria_api.Text.{codes}
use pizzaria_api.Errors.{bad_request_error, not_found_error}
use pizzaria_api.Action.{Action, pure, raise, raise_if, or_raise, ◌>>=◌, ◌>>◌}
use pizzaria_api.World.{Context, W, or_unhandled}
use pizzaria_api.Pagination.{build}
use pizzaria_api.Prisma.Rows.{UnitRow, UnitFields}
use pizzaria_api.Units.Schema.{
  UpdateUnitRequest, UnitResponse, UnitListResponse, UnitSummaryResponse, has_no_updates,
  update_input,
}
use pizzaria_api.Units.Repository.{UnitRepositoryProtocol, unit_not_found}

module _ (ctx : Context) where
  -- `UnitResponse.model_validate`: the id must be a UUID and the address an `EmailStr`.
  unfoldable pub to_response : UnitRow → Option UnitResponse
  to_response raw = elim (ctx.platform.parse_uuid raw.id) [
    | none ↦ none
    | some id ↦ elim (ctx.platform.parse_email raw.email) [
      | none ↦ none
      | some email ↦ some (record {
        id = id;
        fields = record (raw.fields) { email = email };
        is_active = raw.is_active;
        created_at = raw.created_at;
        updated_at = raw.updated_at;
      })
    ]
  ]

  -- `[self._to_response(item) for item in items_raw]`
  unfoldable pub to_responses : List UnitRow → Option (List UnitResponse)
  unfolding to_response
  to_responses [] = some []
  to_responses (raw ∷ raws) = elim (to_response raw) [
    | none ↦ none
    | some r ↦ elim (to_responses raws) [ none ↦ none | some rs ↦ some (r ∷ rs) ]
  ]

  unfoldable pub to_summary_response : UnitRow → UnitSummaryResponse
  to_summary_response raw = record {
    name = raw.name;
    phone = raw.phone;
    street = raw.street;
    number = raw.number;
    neighborhood = raw.neighborhood;
    city = raw.city;
    state = raw.state;
    zip = raw.zip;
  }

  abbrev pub summary_of_first : List UnitRow → Action (W ctx) UnitSummaryResponse
  summary_of_first [] = raise (not_found_error (codes "Current unit not found"))
  summary_of_first (raw ∷ raws) = pure (to_summary_response raw)

  -- The service on any repository.
  module _ (repository : UnitRepositoryProtocol ctx) where
    unfoldable pub create : UnitFields → Action (W ctx) UnitResponse
    create fields = do raw ← repository.create fields; or_unhandled ctx (to_response raw)

    unfoldable pub get_by_id : ℕ → Action (W ctx) UnitResponse
    get_by_id unit_id = do
      found ← repository.get_by_id unit_id
      raw ← or_raise found (unit_not_found ctx unit_id)
      or_unhandled ctx (to_response raw)

    unfoldable pub list_paginated : ℕ → ℕ → Bool → Action (W ctx) UnitListResponse
    list_paginated page page_size include_inactive = do
      (items_raw, total) ← repository.list_paginated page page_size include_inactive
      items ← or_unhandled ctx (to_responses items_raw)
      meta ← or_unhandled ctx (build page page_size total)
      pure (record { items = items; meta = meta })

    unfoldable pub update : ℕ → UpdateUnitRequest → Action (W ctx) UnitResponse
    update unit_id request = do
      existing ← repository.get_by_id unit_id
      or_raise existing (unit_not_found ctx unit_id)
      raise_if (has_no_updates request)
          (bad_request_error (codes "At least one field must be provided for update"))
      raw ← repository.update unit_id (update_input request)
      or_unhandled ctx (to_response raw)

    unfoldable pub delete : ℕ → Action (W ctx) (Unit {0})
    delete unit_id = do
      existing ← repository.get_by_id unit_id
      or_raise existing (unit_not_found ctx unit_id)
      repository.soft_delete unit_id

    unfoldable pub get_current : Action (W ctx) UnitSummaryResponse
    unfolding to_summary_response
    get_current = do
      (items_raw, _) ← repository.list_paginated 1 1 false
      summary_of_first items_raw
