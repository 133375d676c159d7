-- ===== src/Users/Controller.antt =====
-- src/modules/users/user_dependencies.py and src/modules/users/controllers/v1/user_controller.py:
-- each endpoint with its dependencies, which FastAPI runs before it reads the body.
pub mod Access
use pizzaria_api.Prelude.{ℕ, Bool, true, false, not, ◌&&◌, ◌||◌, Option, none, some, ◌==◌}
use pizzaria_api.Prelude.Dict.{Str, str_eq}
use pizzaria_api.Text.{codes}
use pizzaria_api.Errors.{forbidden_error}
use pizzaria_api.Action.{Action, pure, raise_if, ◌>>=◌, ◌>>◌}
use pizzaria_api.World.{Context, W}
use pizzaria_api.Validation.{Field, Given, kwarg, check_email}
use pizzaria_api.Requests.{validated, validated_page}
use pizzaria_api.Security.{AuthenticatedUser, get_current_user, require_admin}
use pizzaria_api.Users.Schema.{
  UserRole, admin, role_value, UserBody, UserResponse, UserListResponse, create_user_request,
  update_user_request,
}
use pizzaria_api.Users.Repository.{get_user_repository}
use pizzaria_api.Users.Service

abbrev pub is_given : {A : Type 0} → Option A → Bool
is_given none = false
is_given (some _) = true

module _ (ctx : Context) where
  unfoldable pub require_admin_or_self : ℕ → Option Str → Action (W ctx) AuthenticatedUser
  require_admin_or_self user_id credentials = do
    user ← get_current_user ctx credentials
    raise_if (not (str_eq user.role (role_value admin) || user.user_id == user_id))
        (forbidden_error (codes "Insufficient permissions"))
    pure user

  unfoldable pub create_user : UserBody → Action (W ctx) UserResponse
  create_user body = do
    request ← validated ctx (create_user_request ctx.platform body)
    Service.create ctx (get_user_repository ctx) request

  unfoldable pub get_user : Option Str → ℕ → Action (W ctx) UserResponse
  unfolding require_admin_or_self
  get_user credentials user_id = do
    _ ← require_admin_or_self user_id credentials
    Service.get_by_id ctx (get_user_repository ctx) user_id

  unfoldable pub list_users : Option Str → ℕ → ℕ → Option UserRole → Action (W ctx) UserListResponse
  list_users credentials page page_size role = do
    _ ← require_admin ctx credentials
    validated_page ctx page page_size
    Service.list_paginated ctx (get_user_repository ctx) page page_size role

  unfoldable pub update_user : Option Str → ℕ → UserBody → Action (W ctx) UserResponse
  unfolding require_admin_or_self
  update_user credentials user_id body = do
    user ← require_admin_or_self user_id credentials
    request ← validated ctx (update_user_request ctx.platform body)
    raise_if (not (str_eq user.role (role_value admin)) && is_given (kwarg request.role))
        (forbidden_error (codes "Only admins can change roles"))
    Service.update ctx (get_user_repository ctx) user_id request

  unfoldable pub delete_user : Option Str → ℕ → Action (W ctx) (Unit {0})
  unfolding require_admin_or_self
  delete_user credentials user_id = do
    _ ← require_admin_or_self user_id credentials
    Service.delete ctx (get_user_repository ctx) user_id
