-- ===== src/Auth/Tokens.antt =====
-- src/modules/auth/password_reset_token_repository.py over the Prisma client.
use pizzaria_api.Prelude.{ℕ, Option, some, [], ◌∷◌}
use pizzaria_api.Prelude.Dict.{Str}
use pizzaria_api.Action.{Action, pure, ◌>>=◌, ◌>>◌}
use pizzaria_api.World.{Context, Db, W, query, execute, settle, utc_now}
use pizzaria_api.Prisma.Table.{Reply, returned, raised}
use pizzaria_api.Prisma.Rows.{UserRow, TokenRow, TokenCond}
use pizzaria_api.Users.Repository.{no_change}

module _ (ctx : Context) where
  unfoldable pub create : ℕ → Str → ℕ → Action (W ctx) (Unit {0})
  create user_id token_hash expires_at = do
    reply ← execute ctx (
        ctx.client.password_reset_token.create (record {
          user_id = ctx.platform.uuid_text user_id;
          token_hash = token_hash;
          expires_at = expires_at;
        }))
    settle ctx reply
    pure tt

  unfoldable pub delete_by_user_id : ℕ → Action (W ctx) (Unit {0})
  delete_by_user_id user_id = do
    reply ← execute ctx (
        ctx.client.password_reset_token.delete_many
          (TokenCond.user_id_is (ctx.platform.uuid_text user_id) ∷ []))
    settle ctx reply
    pure tt

  unfoldable pub get_by_token_hash : Str → Action (W ctx) (Option TokenRow)
  get_by_token_hash token_hash =
      query ctx
        (ctx.client.password_reset_token.find_first (TokenCond.token_hash_is token_hash ∷ []))

  -- The two writes inside `async with self._db.tx()`; the second is not made if the first raises.
  abbrev pub second_write : Str → ℕ → Reply (Option UserRow) → Db ctx → Reply (Unit {0}) × Db ctx
  second_write token_id now (raised e) db = (raised e, db)
  second_write token_id now (returned _) db =
      let (r, db') =
        ctx.client.password_reset_token.update token_id (record { used_at = some now }) db in
      elim r [ returned _ ↦ (returned tt, db') | raised e ↦ (raised e, db') ]

  abbrev pub reset_writes : Str → Str → Str → ℕ → Db ctx → Reply (Unit {0}) × Db ctx
  reset_writes user_id token_id hashed_password now db =
      let (r, db') =
        ctx.client.user.update user_id (record no_change { hashed_password = some hashed_password })
          db in
      second_write token_id now r db'

  unfoldable pub reset_password : ℕ → ℕ → Str → Action (W ctx) (Unit {0})
  reset_password user_id token_id hashed_password = do
    now ← utc_now ctx
    reply ← execute ctx (
        ctx.client.transaction (
          reset_writes (ctx.platform.uuid_text user_id) (ctx.platform.uuid_text token_id)
            hashed_password now))
    settle ctx reply
