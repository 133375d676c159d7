-- ===== src/Security/Tokens.antt =====
-- The tokens of src/core/security.py at the guards of src/core/security_dependencies.py.
use pizzaria_api.Prelude.{ℕ, ◌+◌, ◌*◌, ◌≤◌, ◌≡◌, some}
use pizzaria_api.Prelude.Dict.{Str, lookup, str_eq}
use pizzaria_api.Text.{codes}
use pizzaria_api.Errors.{domain, unauthorized_error}
use pizzaria_api.Action.{ok, failed}
use pizzaria_api.Platform.{Laws}
use pizzaria_api.World.{Context, World, microsecond_second}
use pizzaria_api.Security.{
  access_minutes, refresh_days, text_claim, has_type, access_claims, refresh_claims,
  create_access_token, create_refresh_token, decode_token, get_current_user,
}

-- One reading of the clock later.
abbrev pub drawn : {ctx : Context} → World ctx → World ctx
drawn w = record w { draws = w.draws + 1 }

pub ok_inv : {A : Type 0} {a b : A} → ok a ≡ ok b → a ≡ b
ok_inv h = cc

module _ (ctx : Context) (laws : Laws ctx.platform) where
  -- The token that `create_access_token` makes, and what decoding it gives until it expires.
  pub decode_access :
      (sub role token : Str) (w v : World ctx)
      → (create_access_token ctx sub role w).0 ≡ ok token
      → ctx.utc v.draws + microsecond_second
        ≤ ctx.utc w.draws + access_minutes * 60 * microsecond_second
      → decode_token ctx token v ≡ (ok (access_claims sub role), drawn v)
  unfolding create_access_token decode_token
  decode_access sub role token w v made fresh = rw (← ok_inv made) (
      rw (
        laws.decode_encode (ctx.utc v.draws)
          (record {
            claims = access_claims sub role;
            exp = ctx.utc w.draws + access_minutes * 60 * microsecond_second;
          })
          ctx.settings.jwt_secret fresh))

  pub decode_refresh :
      (sub token : Str) (w v : World ctx)
      → (create_refresh_token ctx sub w).0 ≡ ok token
      → ctx.utc v.draws + microsecond_second
        ≤ ctx.utc w.draws + refresh_days * 86400 * microsecond_second
      → decode_token ctx token v ≡ (ok (refresh_claims sub), drawn v)
  unfolding create_refresh_token decode_token
  decode_refresh sub token w v made fresh = rw (← ok_inv made) (
      rw (
        laws.decode_encode (ctx.utc v.draws)
          (record {
            claims = refresh_claims sub;
            exp = ctx.utc w.draws + refresh_days * 86400 * microsecond_second;
          })
          ctx.settings.jwt_secret fresh))

  -- Until it expires, an access token brings back the user and the role that it was made for.
  pub get_current_user-create_access_token :
      (user_id : ℕ) (role token : Str) (w v : World ctx)
      → (create_access_token ctx (ctx.platform.uuid_text user_id) role w).0 ≡ ok token
      → ctx.utc v.draws + microsecond_second
        ≤ ctx.utc w.draws + access_minutes * 60 * microsecond_second
      → get_current_user ctx (some token) v
        ≡ (ok (record { user_id = user_id; role = role }), drawn v)
  unfolding get_current_user has_type text_claim lookup str_eq
  get_current_user-create_access_token user_id role token w v made fresh = rw (
    decode_access (ctx.platform.uuid_text user_id) role token w v made fresh,
    laws.uuid_round_trip user_id,
  )

  -- Until it expires, a refresh token in place of an access token gets the 401 for a wrong type.
  pub get_current_user-create_refresh_token :
      (sub token : Str) (w v : World ctx)
      → (create_refresh_token ctx sub w).0 ≡ ok token
      → ctx.utc v.draws + microsecond_second
        ≤ ctx.utc w.draws + refresh_days * 86400 * microsecond_second
      → get_current_user ctx (some token) v
        ≡ (failed (domain (unauthorized_error (codes "Invalid token type"))), drawn v)
  unfolding get_current_user has_type text_claim lookup str_eq
  get_current_user-create_refresh_token sub token w v made fresh =
      rw (decode_refresh sub token w v made fresh)
