-- ===== src/Units/Reach/Invariant.antt =====
-- The steps of the process that touch the table of units, and what every table that they lead to
-- holds: the endpoints of src/modules/units/controllers/v1/unit_controller.py, `seed_unit` of
-- src/infra/seed.py, and whatever leaves the table alone.
use pizzaria_api.Prelude.{ℕ, ◌≡◌, false, Option, List, All}
use pizzaria_api.Prelude.Dict.{Str}
use pizzaria_api.Action.{◌>>=◌, ◌>>◌}
use pizzaria_api.World.{Context, World, Db}
use pizzaria_api.World.Keeps.{KeepsDb-validated}
use pizzaria_api.Validation.{Field}
use pizzaria_api.Requests.{validated, validated_page}
use pizzaria_api.Prisma.Table.{IsAtomic}
use pizzaria_api.Prisma.Rows.{UnitRow}
use pizzaria_api.Prisma.Meaning.{unit_meaning}
use pizzaria_api.Seed.{seed_unit}
use pizzaria_api.Units.Schema.{UnitBody, create_unit_request, update_unit_request}
use pizzaria_api.Units.Schema.Accepted.{create_unit_request-IsCnpj, update_unit_request-GivesCnpj}
use pizzaria_api.Units.Repository.{get_unit_repository}
use pizzaria_api.Units.Service
use pizzaria_api.Units.Service.{summary_of_first, to_response, to_responses}
use pizzaria_api.Units.Controller.{
  create_unit, get_current_unit, get_unit, list_unit, update_unit, delete_unit,
}
use pizzaria_api.Units.Controller.Access.{units-AdminOnly}
use pizzaria_api.Units.Reach.Services.{
  Service-create-Safe, Service-get_by_id-Safe, Service-update-Safe, Service-delete-Safe,
  Service-list_paginated-Safe, get_current_unit-Safe, seed_unit-Safe,
}
use pizzaria_api.Units.Reach.{HasCnpj, AllCnpj, Safe, guarded-AllCnpj}

-- A body with no key.
abbrev no_body : UnitBody
no_body = record {
  name = Field.unset;
  cnpj = Field.unset;
  email = Field.unset;
  phone = Field.unset;
  street = Field.unset;
  number = Field.unset;
  neighborhood = Field.unset;
  city = Field.unset;
  state = Field.unset;
  zip = Field.unset;
  is_active = Field.unset;
  has_other_keys = false;
}

module _ (ctx : Context) (rows : Db ctx → List UnitRow) where
  -- One request, or one run of the seeding, whatever it answers.
  pub data Step (w : World ctx) : World ctx → Type 0 where
    creates :
        (credentials : Option Str) (body : UnitBody) → Step w (create_unit ctx credentials body w).1
    reads : (credentials : Option Str) (unit_id : ℕ) → Step w (get_unit ctx credentials unit_id w).1
    lists :
        (credentials : Option Str) (page page_size : ℕ)
        → Step w (list_unit ctx credentials page page_size w).1
    shows_current : Step w (get_current_unit ctx w).1
    updates :
        (credentials : Option Str) (unit_id : ℕ) (body : UnitBody)
        → Step w (update_unit ctx credentials unit_id body w).1
    deletes :
        (credentials : Option Str) (unit_id : ℕ) → Step w (delete_unit ctx credentials unit_id w).1
    seeds : Step w (seed_unit ctx w).1
    elsewhere : (v : World ctx) → rows v.db ≡ rows w.db → Step w v

  pub data Reaches (w : World ctx) : World ctx → Type 0 where
    start : Reaches w w
    then_step : {u v : World ctx} → Reaches w u → Step u v → Reaches w v

  module _ (atomic : IsAtomic ctx.client.unit (unit_meaning ctx.client.same) rows) where
    validated_create-Safe :
        (body : UnitBody)
        → Safe ctx rows atomic (
            validated ctx (create_unit_request ctx.platform body)
            >>= Service.create ctx (get_unit_repository ctx))
    validated_create-Safe body =
        KeepsDb-validated ctx _ (create_unit_request ctx.platform body)
          (Service.create ctx (get_unit_repository ctx))
          (λ fields e.
            Service-create-Safe ctx rows atomic fields
              (create_unit_request-IsCnpj ctx.platform body fields e))

    validated_update-Safe :
        (unit_id : ℕ) (body : UnitBody)
        → Safe ctx rows atomic (
            validated ctx (update_unit_request ctx.platform body)
            >>= Service.update ctx (get_unit_repository ctx) unit_id)
    validated_update-Safe unit_id body =
        KeepsDb-validated ctx _ (update_unit_request ctx.platform body)
          (Service.update ctx (get_unit_repository ctx) unit_id)
          (λ request e.
            Service-update-Safe ctx rows atomic unit_id request
              (update_unit_request-GivesCnpj ctx.platform body request e))

    listed-Safe :
        (page page_size : ℕ)
        → Safe ctx rows atomic (
            validated_page ctx page page_size
            >> Service.list_paginated ctx (get_unit_repository ctx) page page_size false)
    listed-Safe page page_size =
        KeepsDb-validated ctx _ _
          (λ _. Service.list_paginated ctx (get_unit_repository ctx) page page_size false)
          (λ _ _. Service-list_paginated-Safe ctx rows atomic page page_size)

    Step-AllCnpj :
        (w v : World ctx) → Step w v → AllCnpj ctx rows atomic w.db → AllCnpj ctx rows atomic v.db
    Step-AllCnpj w v (creates credentials body) h =
        guarded-AllCnpj ctx rows atomic credentials _ w _ (validated_create-Safe body) h
          (units-AdminOnly ctx credentials 0 1 1 body w).0
    Step-AllCnpj w v (reads credentials unit_id) h =
        guarded-AllCnpj ctx rows atomic credentials _ w _
          (Service-get_by_id-Safe ctx rows atomic unit_id) h
          (units-AdminOnly ctx credentials unit_id 1 1 no_body w).1
    Step-AllCnpj w v (lists credentials page page_size) h =
        guarded-AllCnpj ctx rows atomic credentials _ w _ (listed-Safe page page_size) h
          (units-AdminOnly ctx credentials 0 page page_size no_body w).2
    Step-AllCnpj w v shows_current h = (get_current_unit-Safe ctx rows atomic).at w h
    Step-AllCnpj w v (updates credentials unit_id body) h =
        guarded-AllCnpj ctx rows atomic credentials _ w _ (validated_update-Safe unit_id body) h
          (units-AdminOnly ctx credentials unit_id 1 1 body w).3
    Step-AllCnpj w v (deletes credentials unit_id) h =
        guarded-AllCnpj ctx rows atomic credentials _ w _
          (Service-delete-Safe ctx rows atomic unit_id) h
          (units-AdminOnly ctx credentials unit_id 1 1 no_body w).4
    Step-AllCnpj w v seeds h = (seed_unit-Safe ctx rows atomic).at w h
    Step-AllCnpj w v (elsewhere _ same) h = rw same h

-- Whatever requests the endpoints of the units serve and however often the seeding runs, whether
-- they return or raise and whatever other calls that leave the table of units alone come in
-- between: if every CNPJ in the table was in normal form, with its check digits, then every one is.
-- The client's calls on the table have their whole effect or none.
pub Reaches-HasCnpj :
    (ctx : Context) (rows : Db ctx → List UnitRow)
    → IsAtomic ctx.client.unit (unit_meaning ctx.client.same) rows
    → (w v : World ctx) → Reaches ctx rows w v
    → All HasCnpj (rows w.db)
    → All HasCnpj (rows v.db)
Reaches-HasCnpj ctx rows atomic w v start h = h
Reaches-HasCnpj ctx rows atomic w v (then_step {u} before step) h =
    Step-AllCnpj ctx rows atomic u v step (Reaches-HasCnpj ctx rows atomic w u before h)
