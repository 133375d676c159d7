-- ===== src/Auth/Service/Deleted.antt =====
-- The refresh tokens of src/modules/auth/auth_service.py after a deletion by
-- src/modules/users/user_service.py.
use pizzaria_api.Prelude.{◌+◌, ◌*◌, ◌≤◌, ◌≡◌, refl, sym, none, List, inl, inr, ◌⊎◌}
use mathlib.Core.Path.{subst}
use pizzaria_api.Prelude.Dict.{lookup, str_eq}
use pizzaria_api.Errors.{unhandled}
use pizzaria_api.Action.{ok, failed}
use pizzaria_api.Platform
use pizzaria_api.World.{Context, World, Db, microsecond_second}
use pizzaria_api.Prisma.Table.{Laws}
use pizzaria_api.Prisma.Rows.{UserRow}
use pizzaria_api.Prisma.Meaning.{user_meaning}
use pizzaria_api.Security.{refresh_days, text_claim, has_type}
use pizzaria_api.Security.Tokens.{drawn, decode_refresh}
use pizzaria_api.Security.Guards.{Refuses, refused_drawn}
use pizzaria_api.Users.Repository.{get_user_repository}
use pizzaria_api.Users.Service.{delete}
use pizzaria_api.Users.Service.Deletion.{IsGone, delete-IsGone, get_by_id-IsGone}
use pizzaria_api.Auth.Schema.{LoginResponseDto}
use pizzaria_api.Auth.Dependencies.{get_auth_service}
use pizzaria_api.Auth.Service.{refresh_token}
use pizzaria_api.Auth.Service.Issue.{IsIssued}
use pizzaria_api.Auth.Service.Refresh.{refresh_token-IsIssued}

module _ (ctx : Context) {Rest : Type 0} (rows : Db ctx → List UserRow) (rest : Db ctx → Rest)
    (laws : Laws ctx.client.user (user_meaning ctx.client.same) rows rest) where
  -- Once the deletion of an account has returned, an unexpired refresh token that was issued for it
  -- gives no more tokens while the database stays so: it gets a 401 with nothing written, or an
  -- unhandled exception if the database fails.
  pub delete-refresh_token :
      (response : LoginResponseDto) (s t w v z : World ctx)
      → Platform.Laws ctx.platform
      → IsIssued ctx response s t
      → delete ctx (get_user_repository ctx) response.user.id w ≡ (ok tt, v)
      → z.db ≡ v.db
      → ctx.utc z.draws + microsecond_second
        ≤ ctx.utc (drawn s).draws + refresh_days * 86400 * microsecond_second
      → Refuses ctx 401 z (refresh_token ctx (get_auth_service ctx) response.refresh_token z)
        ⊎ (refresh_token ctx (get_auth_service ctx) response.refresh_token z
            ≡ (failed unhandled, drawn z))
  unfolding refresh_token has_type text_claim lookup str_eq
  delete-refresh_token response s t w v z platform issued deleted same fresh =
      elim (get_by_id-IsGone ctx rows rest laws response.user.id (drawn z) (
        subst (IsGone ctx rows rest laws response.user.id) (sym same)
          (delete-IsGone ctx rows rest laws response.user.id w v deleted))) [
            | inl absent ↦ inl (
                rw (refresh_token-IsIssued ctx response s t z none platform issued fresh absent)
                  (refused_drawn ctx _ z))
            | inr raised ↦ inr (
                rw
                  (
                    decode_refresh ctx platform (ctx.platform.uuid_text response.user.id)
                        response.refresh_token (drawn s) z issued.refresh fresh,
                    platform.uuid_round_trip response.user.id,
                    raised,
                  )
                  refl)
          ]
