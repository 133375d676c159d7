-- ===== src/Tests/Units.antt =====
-- The endpoints and the service of src/modules/units on the database of `Setup`.
use mathlib.Core.List.{Perm}
use pizzaria_api.Prelude.{take, drop}
use pizzaria_api.Prelude.{◌≡◌, ◌⊎◌, refl, none, some, List, [], ◌∷◌, true, false, All, In, length}
use pizzaria_api.Prelude.Dict.{Str, str_eq}
use pizzaria_api.Text.{codes}
use pizzaria_api.Errors.{domain, unhandled}
use pizzaria_api.Action.{ok, failed, ◌>>=◌, ◌>>◌}
use pizzaria_api.World.{World}
use pizzaria_api.Prisma.Table.{replace}
use pizzaria_api.Prisma.Memory.{memory_table, find, any}
use pizzaria_api.Prisma.Memory.Tables.{Tables, units-Laws}
use pizzaria_api.Prisma.Meaning.{unit_meaning, UnitCreated}
use pizzaria_api.Prisma.Rows.{UnitRow, UnitFields}
use pizzaria_api.Pagination.{total_pages_of, build, skip_of}
use pizzaria_api.Validation.{Field, Given}
use pizzaria_api.Requests.{validated, validated_page}
use pizzaria_api.Security.Tokens.{drawn}
use pizzaria_api.Security.Guards.{AdminOnly}
use pizzaria_api.Units.Schema.{
  UnitBody, UpdateUnitRequest, UnitResponse, UnitListResponse, create_unit_request,
  update_unit_request, has_no_updates, update_input,
}
use pizzaria_api.Units.Repository
use pizzaria_api.Units.Repository.{unit_not_found}
use pizzaria_api.Units.Repository.{get_unit_repository}
use pizzaria_api.Units.Service
use pizzaria_api.Units.Service.{
  create, update, delete, get_by_id, list_paginated, to_response, to_responses,
}
use pizzaria_api.Units.Service.Deletion.{delete-get_by_id}
use pizzaria_api.Units.Service.Listing.{shown, list_paginated_lem}
use pizzaria_api.Units.Service.Writes.{Patched, create_writes, update_lem}
use pizzaria_api.Units.Controller.{create_unit, get_unit, list_unit, update_unit, delete_unit}
use pizzaria_api.Units.Controller.Access.{units-AdminOnly}
use pizzaria_api.Units.Cnpj.{validate_cnpj, check_digit, weighted_sum}
use pizzaria_api.Units.Cnpj.Laws.{validate_cnpj_iff}
use pizzaria_api.Seed.{seed_unit}
use pizzaria_api.Units.Reach.{HasCnpj}
use pizzaria_api.Units.Reach.Invariant.{Reaches, seeds, reads, then_step, Reaches-HasCnpj}
use pizzaria_api.Prisma.Memory.Tables.{units-IsAtomic}
use pizzaria_api.Tests.Setup.{process, start, tables, shop, shop_fields, access_token}

abbrev admin_token : Str
admin_token = access_token 1 (codes "ADMIN")

abbrev rows : Tables → List UnitRow
rows db = db.units

abbrev rest : Tables → Tables
rest db = record db { units = [] }

abbrev body : UnitBody
body = record {
  name = Field.given (codes "Norte");
  cnpj = Field.unset;
  email = Field.unset;
  phone = Field.unset;
  street = Field.unset;
  number = Field.unset;
  neighborhood = Field.unset;
  city = Field.unset;
  state = Field.unset;
  zip = Field.unset;
  is_active = Field.unset;
  has_other_keys = false;
}

abbrev request : UpdateUnitRequest
request = record {
  name = Given.given (codes "Norte");
  cnpj = Given.unset;
  email = Given.unset;
  phone = Given.unset;
  street = Given.unset;
  number = Given.unset;
  neighborhood = Given.unset;
  city = Given.unset;
  state = Given.unset;
  zip = Given.unset;
  is_active = Given.unset;
}

-- The state after the deletion of the only unit.
abbrev deleted : World process
deleted = (delete process (get_unit_repository process) 9 start).1

deletes : delete process (get_unit_repository process) 9 start ≡ (ok tt, deleted)
unfolding delete Repository.get_by_id Repository.soft_delete memory_table find str_eq
deletes = refl

delete-get_by_id_example :
    (get_by_id process (get_unit_repository process) 9 deleted
      ≡ (failed (domain (unit_not_found process 9)), deleted))
    ⊎ (get_by_id process (get_unit_repository process) 9 deleted ≡ (failed unhandled, deleted))
delete-get_by_id_example = delete-get_by_id process rows rest units-Laws 9 start deleted deletes

abbrev listing : UnitListResponse
listing = record {
  items =
      record { id = 9; fields = shop_fields; is_active = true; created_at = 0; updated_at = 0 }
      ∷ [];
  meta = record { page = 1; page_size = 20; total = 1; total_pages = 1 };
}

lists : list_paginated process (get_unit_repository process) 1 20 false start ≡ (ok listing, start)
unfolding list_paginated Repository.list_paginated to_responses memory_table build skip_of
lists = refl

list_paginated_lem_example :
    (order : List UnitRow) × Perm order (shop ∷ [])
    × (to_responses process (take 20 (drop 0 order)) ≡ some listing.items)
    × (1 ≡ length (shown process rows rest units-Laws false tables))
    × (1 ≡ total_pages_of 20 1)
    × (start ≡ start)
list_paginated_lem_example =
    list_paginated_lem process rows rest units-Laws 1 20 false listing start start lists

abbrev other_fields : UnitFields
other_fields = record shop_fields { cnpj = codes "12345678000195" }

abbrev new_shop : UnitResponse
new_shop = record {
  id = 1001;
  fields = other_fields;
  is_active = true;
  created_at = 0;
  updated_at = 0;
}

abbrev created : World process
created = (create process (get_unit_repository process) other_fields start).1

creates : create process (get_unit_repository process) other_fields start ≡ (ok new_shop, created)
unfolding create Repository.create memory_table any str_eq to_response
creates = refl

create_writes_example :
    (row : UnitRow) × UnitCreated other_fields row
    × (to_response process row ≡ some new_shop)
    × (created.db.units ≡ shop ∷ row ∷ [])
    × All (λ r. str_eq r.cnpj other_fields.cnpj ≡ false) (shop ∷ [])
    × (rest created.db ≡ rest tables)
create_writes_example =
    create_writes process rows rest units-Laws other_fields new_shop start created creates

abbrev renamed : UnitResponse
renamed = record {
  id = 9;
  fields = record shop_fields { name = codes "Norte" };
  is_active = true;
  created_at = 0;
  updated_at = 1;
}

abbrev changed : World process
changed = (update process (get_unit_repository process) 9 request start).1

changes : update process (get_unit_repository process) 9 request start ≡ (ok renamed, changed)
unfolding update Repository.update Repository.get_by_id memory_table find str_eq to_response
    has_no_updates update_input
changes = refl

update_lem_example :
    (old : UnitRow) × (new : UnitRow) × In old (shop ∷ [])
    × Patched process rows rest units-Laws request old new
    × (to_response process new ≡ some renamed)
    × (changed.db.units ≡ replace (unit_meaning str_eq) (9 ∷ []) new (shop ∷ []))
    × (rest changed.db ≡ rest tables)
    × (has_no_updates request ≡ false)
update_lem_example = update_lem process rows rest units-Laws 9 request renamed start changed changes

units-AdminOnly_example :
    AdminOnly process
      (some admin_token)
      start
      ((validated process (create_unit_request process.platform body)
          >>= Service.create process (get_unit_repository process))
        (drawn start))
      (create_unit process (some admin_token) body start)
    × AdminOnly process
        (some admin_token)
        start
        (Service.get_by_id process (get_unit_repository process) 9 (drawn start))
        (get_unit process (some admin_token) 9 start)
    × AdminOnly process
        (some admin_token)
        start
        ((validated_page process 1 20
            >> Service.list_paginated process (get_unit_repository process) 1 20 false)
          (drawn start))
        (list_unit process (some admin_token) 1 20 start)
    × AdminOnly process
        (some admin_token)
        start
        ((validated process (update_unit_request process.platform body)
            >>= Service.update process (get_unit_repository process) 9)
          (drawn start))
        (update_unit process (some admin_token) 9 body start)
    × AdminOnly process
        (some admin_token)
        start
        (Service.delete process (get_unit_repository process) 9 (drawn start))
        (delete_unit process (some admin_token) 9 start)
units-AdminOnly_example = units-AdminOnly process (some admin_token) 9 1 20 body start

-- The seeding, and then a request without a token.
abbrev history : World process
history = (get_unit process none 9 (seed_unit process start).1).1

reaches_history : Reaches process (λ db. db.units) start history
reaches_history = then_step (then_step Reaches.start seeds) (reads none 9)

Reaches-HasCnpj_example : All HasCnpj history.db.units
unfolding validate_cnpj str_eq check_digit weighted_sum
Reaches-HasCnpj_example =
    Reaches-HasCnpj process (λ db. db.units) units-IsAtomic start history reaches_history
      ((validate_cnpj_iff shop.cnpj).0 refl, tt)
