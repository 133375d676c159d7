-- ===== src/Tests/Users.antt =====
-- The guards of src/core/security_dependencies.py and the endpoints of src/modules/users on the
-- database of `Setup`.
use pizzaria_api.Prelude.{
  ◌≡◌, ◌≢◌, ◌⊎◌, refl, none, some, List, [], ◌∷◌, ◌++◌, true, false, All, In,
}
use pizzaria_api.Prelude.Dict.{Str, str_eq, lookup}
use pizzaria_api.Text.{codes}
use pizzaria_api.Action.{ok, ◌>>◌}
use pizzaria_api.World.{World}
use pizzaria_api.Prisma.Memory.{memory_table, find, any}
use pizzaria_api.Prisma.Memory.Tables.{Tables, users-Laws}
use pizzaria_api.Prisma.Rows.{UserRow, RoleRow}
use pizzaria_api.Validation.{Field, Given, accept}
use pizzaria_api.Requests.{validated_page}
use pizzaria_api.Security.{
  AuthenticatedUser, admin_role, get_current_user, decode_token, has_type, text_claim,
  hash_password, verify_password, refresh_claims,
}
use pizzaria_api.Security.Tokens.{drawn}
use pizzaria_api.Security.Guards.{IsAuthentic, Refuses, get_current_user_outcome, AdminOnly}
use pizzaria_api.Users.Schema.{
  admin, staff, customer, UserBody, CreateUserRequest, UpdateUserRequest, UserResponse,
  update_user_request, parse_role, role_value,
}
use pizzaria_api.Users.Repository
use pizzaria_api.Users.Repository.{get_user_repository}
use pizzaria_api.Users.Service
use pizzaria_api.Users.Service.{create, to_response, validate_response}
use pizzaria_api.Users.Service.Changes.{replaced, update_changes}
use pizzaria_api.Users.Service.Writes.{create_registers}
use pizzaria_api.Users.Controller.{get_user, list_users, update_user, delete_user}
use pizzaria_api.Users.Controller.Access.{OwnerOnly, users-access, update_user_role_change}
use pizzaria_api.Tests.Setup.{
  process, start, tables, libraries-Laws, settings, access_token, password,
}

abbrev customer_token : Str
customer_token = access_token 2 (codes "CUSTOMER")

abbrev refresh_token : Str
refresh_token =
    process.platform.jwt_encode (record { claims = refresh_claims (2 ∷ []); exp = 604800000000 })
      settings.jwt_secret

get_current_user_outcome_example :
    ((user : AuthenticatedUser) × IsAuthentic process (some customer_token) start user
      × (get_current_user process (some customer_token) start ≡ (ok user, drawn start)))
    ⊎ Refuses process 401 start (get_current_user process (some customer_token) start)
get_current_user_outcome_example = get_current_user_outcome process (some customer_token) start

users-access_example :
    OwnerOnly process 2
      (some customer_token)
      start
      (λ _. Service.get_by_id process (get_user_repository process) 2 (drawn start))
      (get_user process (some customer_token) 2 start)
    × OwnerOnly process 2
        (some customer_token)
        start
        (λ _. Service.delete process (get_user_repository process) 2 (drawn start))
        (delete_user process (some customer_token) 2 start)
    × AdminOnly process
        (some customer_token)
        start
        ((validated_page process 1 20
            >> Service.list_paginated process (get_user_repository process) 1 20 none)
          (drawn start))
        (list_users process (some customer_token) 1 20 none start)
users-access_example = users-access process (some customer_token) 2 1 20 none start

-- A customer who asks to become an administrator.
abbrev body : UserBody
body = record {
  email = Field.unset;
  name = Field.unset;
  password = Field.unset;
  role = Field.given (codes "ADMIN");
}

abbrev request : UpdateUserRequest
request = record {
  email = Given.unset;
  name = Given.unset;
  password = Given.unset;
  role = Given.given admin;
}

valid : update_user_request process.platform body ≡ accept request
unfolding update_user_request parse_role role_value str_eq
valid = refl

customer-authenticates :
    get_current_user process (some customer_token) start
    ≡ (ok (record { user_id = 2; role = codes "CUSTOMER" }), drawn start)
unfolding get_current_user decode_token has_type text_claim lookup str_eq
customer-authenticates = refl

not_admin : codes "CUSTOMER" ≢ admin_role
not_admin e = cc

update_user_role_change_example :
    Refuses process 403 start (update_user process (some customer_token) 2 body start)
update_user_role_change_example =
    update_user_role_change process (some customer_token) 2 body request admin
      (record { user_id = 2; role = codes "CUSTOMER" }) start customer-authenticates not_admin valid
      refl

abbrev rows : Tables → List UserRow
rows db = db.users

abbrev rest : Tables → Tables
rest db = record db { users = [] }

abbrev new_user : CreateUserRequest
new_user = record {
  email = codes "eva@x.io";
  name = codes "Eva";
  password = password;
  role = customer;
}

abbrev eva : UserResponse
eva = record {
  id = 1003;
  email = codes "eva@x.io";
  name = codes "Eva";
  role = customer;
  is_active = true;
  created_at = 0;
  updated_at = 0;
}

abbrev created : World process
created = (create process (get_user_repository process) new_user start).1

creates : create process (get_user_repository process) new_user start ≡ (ok eva, created)
unfolding create Repository.create memory_table any str_eq to_response validate_response
    hash_password parse_role role_value
creates = refl

create_registers_example :
    (row : UserRow) × (created.db.users ≡ tables.users ++ row ∷ [])
    × (row.email ≡ codes "eva@x.io")
    × (row.name ≡ codes "Eva")
    × (row.is_active ≡ true)
    × (row.deleted_at ≡ none)
    × (verify_password process password row.hashed_password ≡ true)
    × All (λ r. str_eq r.email (codes "eva@x.io") ≡ false) tables.users
    × (rest created.db ≡ rest tables)
create_registers_example =
    create_registers process rows rest users-Laws new_user eva start created libraries-Laws creates

abbrev change : UpdateUserRequest
change = record {
  email = Given.unset;
  name = Given.given (codes "Beatriz");
  password = Given.given password;
  role = Given.given staff;
}

abbrev beatriz : UserResponse
beatriz = record {
  id = 2;
  email = codes "bia@x.io";
  name = codes "Beatriz";
  role = staff;
  is_active = true;
  created_at = 0;
  updated_at = 1;
}

abbrev changed : World process
changed = (Service.update process (get_user_repository process) 2 change start).1

changes :
    Service.update process (get_user_repository process) 2 change start ≡ (ok beatriz, changed)
unfolding Service.update Repository.get_by_id Repository.update memory_table find any str_eq
    to_response validate_response hash_password parse_role role_value
changes = refl

update_changes_example :
    (old : UserRow) × (new : UserRow) × In old tables.users
    × (changed.db.users ≡ replaced process rows rest users-Laws 2 new tables.users)
    × (new.email ≡ old.email)
    × (new.name ≡ codes "Beatriz")
    × (verify_password process password new.hashed_password ≡ true)
    × ((row : RoleRow) × (new.role ≡ some row) × (str_eq row.name (role_value staff) ≡ true))
    × ((new.id ≡ old.id) × (new.is_active ≡ old.is_active) × (new.deleted_at ≡ old.deleted_at))
    × ((role : RoleRow) × (new.role ≡ some role)
        × (validate_response process new role ≡ some beatriz))
    × (rest changed.db ≡ rest tables)
update_changes_example =
    update_changes process rows rest users-Laws 2 change beatriz start changed libraries-Laws
      changes
