-- ===== src/Users/Service.antt =====
-- src/modules/users/user_service.py: `UserService`.
pub mod Writes
pub mod Deletion
pub mod Changes
use pizzaria_api.Prelude.{ℕ, Option, none, some, List, [], ◌∷◌}
use pizzaria_api.Prelude.Dict.{Str}
use pizzaria_api.Errors.{internal_error, unhandled}
use pizzaria_api.Action.{Action, failed, pure, raise, or_raise, ◌>>=◌, ◌>>◌}
use pizzaria_api.World.{Context, W, or_unhandled}
use pizzaria_api.Pagination.{build}
use pizzaria_api.Validation.{Given, kwarg}
use pizzaria_api.Security.{hash_password}
use pizzaria_api.Prisma.Rows.{UserRow, RoleRow}
use pizzaria_api.Users.Schema.{
  UserRole, role_value, parse_role, CreateUserRequest, UpdateUserRequest, UserResponse,
  UserListResponse,
}
use pizzaria_api.Users.Repository.{UserRepositoryProtocol, user_not_found}

module _ (ctx : Context) where
  -- `UserResponse.model_validate`
  unfoldable pub validate_response : UserRow → RoleRow → Option UserResponse
  validate_response raw role_row = elim (ctx.platform.parse_uuid raw.id) [
    | none ↦ none
    | some id ↦ elim (ctx.platform.parse_email raw.email) [
      | none ↦ none
      | some email ↦ elim (parse_role role_row.name) [
        | none ↦ none
        | some role ↦ some (record {
          id = id;
          email = email;
          name = raw.name;
          role = role;
          is_active = raw.is_active;
          created_at = raw.created_at;
          updated_at = raw.updated_at;
        })
      ]
    ]
  ]

  unfoldable pub to_response : UserRow → Action (W ctx) UserResponse
  unfolding validate_response
  to_response raw = do
    role ← or_raise raw.role internal_error
    or_unhandled ctx (validate_response raw role)

  unfoldable pub to_responses : List UserRow → Action (W ctx) (List UserResponse)
  to_responses [] = pure []
  to_responses (raw ∷ raws) = do r ← to_response raw; rs ← to_responses raws; pure (r ∷ rs)

  -- `if "password" in updates: updates["hashed_password"] =
  -- hash_password(updates.pop("password"))`; on a password that the body sets to `null`,
  -- `PasswordHash.hash(None)` raises.
  abbrev pub hash_if_given : Given Str → Action (W ctx) (Option Str)
  hash_if_given Given.unset = pure none
  hash_if_given Given.null = or_unhandled ctx none
  hash_if_given (Given.given password) = do hashed ← hash_password ctx password; pure (some hashed)

  abbrev pub role_name_of : Given UserRole → Option Str
  role_name_of Given.unset = none
  role_name_of Given.null = none
  role_name_of (Given.given role) = some (role_value role)

  -- The service on any repository.
  module _ (repository : UserRepositoryProtocol ctx) where
    unfoldable pub create : CreateUserRequest → Action (W ctx) UserResponse
    create request = do
      hashed ← hash_password ctx request.password
      raw ← repository.create request.email request.name hashed request.role
      to_response raw

    unfoldable pub get_by_id : ℕ → Action (W ctx) UserResponse
    get_by_id user_id = do
      found ← repository.get_by_id user_id
      raw ← or_raise found (user_not_found ctx user_id)
      to_response raw

    unfoldable pub list_paginated : ℕ → ℕ → Option UserRole → Action (W ctx) UserListResponse
    list_paginated page page_size role = do
      (items_raw, total) ← repository.list_paginated page page_size role
      items ← to_responses items_raw
      meta ← or_unhandled ctx (build page page_size total)
      pure (record { items = items; meta = meta })

    unfoldable pub update : ℕ → UpdateUserRequest → Action (W ctx) UserResponse
    update user_id request = do
      existing ← repository.get_by_id user_id
      or_raise existing (user_not_found ctx user_id)
      hashed ← hash_if_given request.password
      raw ← repository.update user_id (record {
        email = kwarg request.email;
        name = kwarg request.name;
        hashed_password = hashed;
        role_name = role_name_of request.role;
        deleted_at = none;
      })
      to_response raw

    unfoldable pub delete : ℕ → Action (W ctx) (Unit {0})
    delete user_id = do
      existing ← repository.get_by_id user_id
      or_raise existing (user_not_found ctx user_id)
      repository.soft_delete user_id
