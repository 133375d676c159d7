-- ===== src/Users/Schema.antt =====
-- src/modules/users/user_schema.py.
use pizzaria_api.Prelude.{ℕ, Bool, Option, none, some, List, if◌then◌else◌}
use pizzaria_api.Prelude.Dict.{Str, str_eq}
use pizzaria_api.Text.{codes}
use pizzaria_api.Platform.{Platform}
use pizzaria_api.Validation.{
  Checked, accept, reject, ◌>>=◌, bounded, Field, Given, required, if_given, check_email,
}
use pizzaria_api.Pagination.{PaginationMeta}

pub data UserRole : Type 0 where
  customer staff admin : UserRole

unfoldable pub role_value : UserRole → Str
role_value customer = codes "CUSTOMER"
role_value staff = codes "STAFF"
role_value admin = codes "ADMIN"

-- `UserRole(value)`
unfoldable pub parse_role : Str → Option UserRole
unfolding role_value
parse_role s =
    if str_eq s (role_value customer)
    then some customer
    else if str_eq s (role_value staff)
    then some staff
    else if str_eq s (role_value admin)
    then some admin
    else none

abbrev pub check_role : Str → Checked UserRole
check_role s = elim (parse_role s) [
  | none ↦ reject (codes "Input should be 'CUSTOMER', 'STAFF' or 'ADMIN'")
  | some r ↦ accept r
]

pub record UserBody : Type 0 where
  pub email : Field Str
  pub name : Field Str
  pub password : Field Str
  pub role : Field Str

pub record CreateUserRequest : Type 0 where
  pub email : Str
  pub name : Str
  pub password : Str
  pub role : UserRole

pub record UpdateUserRequest : Type 0 where
  pub email : Given Str
  pub name : Given Str
  pub password : Given Str
  pub role : Given UserRole

-- `role: UserRole = Field(default=UserRole.CUSTOMER)`
abbrev role_or_customer : Field Str → Checked UserRole
role_or_customer Field.unset = accept customer
role_or_customer (Field.given s) = check_role s
role_or_customer Field.null = reject (codes "Input should be a valid value")
role_or_customer Field.wrong = reject (codes "Input should be a valid value")

module _ (p : Platform) where
  unfoldable pub create_user_request : UserBody → Checked CreateUserRequest
  create_user_request b = do
    email ← required (check_email p) b.email
    name ← required (bounded 1 120) b.name
    password ← required (bounded 8 128) b.password
    role ← role_or_customer b.role
    accept (record { email = email; name = name; password = password; role = role })

  unfoldable pub update_user_request : UserBody → Checked UpdateUserRequest
  update_user_request b = do
    email ← if_given (check_email p) b.email
    name ← if_given (bounded 1 120) b.name
    password ← if_given (bounded 8 128) b.password
    role ← if_given check_role b.role
    accept (record { email = email; name = name; password = password; role = role })

pub record UserResponse : Type 0 where
  pub id : ℕ
  pub email : Str
  pub name : Str
  pub role : UserRole
  pub is_active : Bool
  pub created_at : ℕ
  pub updated_at : ℕ

pub record UserListResponse : Type 0 where
  pub items : List UserResponse
  pub meta : PaginationMeta
