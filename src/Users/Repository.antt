-- ===== src/Users/Repository.antt =====
-- src/modules/users/user_repository.py over the Prisma client. Every call but the one of
-- `soft_delete` includes the role.
use pizzaria_api.Prelude.{ℕ, Option, none, some, List, [], ◌∷◌, ◌++◌}
use pizzaria_api.Prelude.Dict.{Str}
use pizzaria_api.Text.{codes}
use pizzaria_api.Errors.{DomainError, conflict_error, not_found_error}
use pizzaria_api.Action.{Action, pure, or_raise, ◌>>=◌, ◌>>◌}
use pizzaria_api.World.{Context, W, query, execute, settle_unique, settle_found, utc_now}
use pizzaria_api.Pagination.{skip_of}
use pizzaria_api.Prisma.Rows.{UserRow, UserUpdateInput, UserCond}
use pizzaria_api.Users.Schema.{UserRole, role_value}

abbrev pub no_change : UserUpdateInput
no_change = record {
  email = none;
  name = none;
  hashed_password = none;
  role_name = none;
  deleted_at = none;
}

abbrev pub listed : Option UserRole → List UserCond
listed none = UserCond.not_deleted ∷ []
listed (some role) = UserCond.not_deleted ∷ UserCond.role_is (role_value role) ∷ []

module _ (ctx : Context) where
  abbrev pub user_not_found : ℕ → DomainError
  user_not_found user_id =
      not_found_error (codes "User " ++ ctx.platform.uuid_text user_id ++ codes " not found")

  unfoldable pub create : Str → Str → Str → UserRole → Action (W ctx) UserRow
  create email name hashed_password role = do
    reply ← execute ctx (
        ctx.client.user.create (record {
          email = email;
          name = name;
          hashed_password = hashed_password;
          role_name = role_value role;
        }))
    settle_unique ctx
        (conflict_error (codes "User with email " ++ email ++ codes " already exists")) reply

  unfoldable pub get_by_id : ℕ → Action (W ctx) (Option UserRow)
  get_by_id user_id = query ctx (
      ctx.client.user.find_first
        (UserCond.id_is (ctx.platform.uuid_text user_id) ∷ UserCond.not_deleted ∷ []))

  unfoldable pub get_by_email : Str → Action (W ctx) (Option UserRow)
  get_by_email email =
      query ctx (ctx.client.user.find_first (UserCond.email_is email ∷ UserCond.not_deleted ∷ []))

  unfoldable pub list_paginated : ℕ → ℕ → Option UserRole → Action (W ctx) (List UserRow × ℕ)
  list_paginated page page_size role = do
    items ← query ctx (ctx.client.user.find_many (listed role) (skip_of page page_size) page_size)
    total ← query ctx (ctx.client.user.count (listed role))
    pure (items, total)

  unfoldable pub update : ℕ → UserUpdateInput → Action (W ctx) UserRow
  update user_id changes = do
    reply ← execute ctx (ctx.client.user.update (ctx.platform.uuid_text user_id) changes)
    row ← settle_unique ctx (conflict_error (codes "Email already in use")) reply
    or_raise row (user_not_found user_id)

  unfoldable pub soft_delete : ℕ → Action (W ctx) (Unit {0})
  soft_delete user_id = do
    now ← utc_now ctx
    reply ← execute ctx (
        ctx.client.user.update (ctx.platform.uuid_text user_id)
          (record no_change { deleted_at = some now }))
    settle_found ctx (user_not_found user_id) reply
    pure tt

-- `UserRepositoryProtocol`: what the services ask of a repository.
pub record UserRepositoryProtocol (ctx : Context) : Type 0 where
  pub create : Str → Str → Str → UserRole → Action (W ctx) UserRow
  pub get_by_id : ℕ → Action (W ctx) (Option UserRow)
  pub get_by_email : Str → Action (W ctx) (Option UserRow)
  pub list_paginated : ℕ → ℕ → Option UserRole → Action (W ctx) (List UserRow × ℕ)
  pub update : ℕ → UserUpdateInput → Action (W ctx) UserRow
  pub soft_delete : ℕ → Action (W ctx) (Unit {0})

-- `get_user_repository` of user_dependencies.py
abbrev pub get_user_repository : (ctx : Context) → UserRepositoryProtocol ctx
get_user_repository ctx = record {
  create = create ctx;
  get_by_id = get_by_id ctx;
  get_by_email = get_by_email ctx;
  list_paginated = list_paginated ctx;
  update = update ctx;
  soft_delete = soft_delete ctx;
}
