-- ===== src/Security.antt =====
-- src/core/security.py and src/core/security_dependencies.py: tokens, and who may call an endpoint.
pub mod Tokens
pub mod Guards
use pizzaria_api.Prelude.{
  ℕ, ◌+◌, ◌*◌, Bool, true, false, not, Option, none, some, List, [], ◌∷◌, if◌then◌else◌,
}
use pizzaria_api.Prelude.Dict.{Str, Dict, lookup, str_eq, contains}
use pizzaria_api.Text.{codes}
use pizzaria_api.Errors.{unauthorized_error, forbidden_error}
use pizzaria_api.Action.{Action, ok, pure, raise, raise_if, or_raise, ◌>>=◌, ◌>>◌}
use pizzaria_api.Platform.{Claim, text, other, Payload}
use pizzaria_api.World.{Context, W, utc_now, draw_random, microsecond_second}

pub record AuthenticatedUser : Type 0 where
  pub user_id : ℕ
  pub role : Str

abbrev pub admin_role : Str
admin_role = codes "ADMIN"

abbrev pub access_minutes : ℕ
access_minutes = 15

abbrev pub refresh_days : ℕ
refresh_days = 7

-- `payload.get(key)`, where it is a `str`
abbrev pub text_of : Option Claim → Option Str
text_of none = none
text_of (some (text s)) = some s
text_of (some other) = none

unfoldable pub text_claim : Str → Dict Claim → Option Str
text_claim key claims = text_of (lookup key claims)

-- `payload.get("token_type") != kind`, negated
unfoldable pub has_type : Str → Dict Claim → Bool
unfolding text_claim
has_type kind claims = elim (text_claim (codes "token_type") claims) [
  | none ↦ false
  | some s ↦ str_eq s kind
]

abbrev pub access_claims : Str → Str → Dict Claim
access_claims sub role =
    (codes "sub", text sub)
    ∷ (codes "role", text role)
    ∷ (codes "token_type", text (codes "access"))
    ∷ []

abbrev pub refresh_claims : Str → Dict Claim
refresh_claims sub = (codes "sub", text sub) ∷ (codes "token_type", text (codes "refresh")) ∷ []

module _ (ctx : Context) where
  unfoldable pub hash_password : Str → Action (W ctx) Str
  hash_password plain = do salt ← draw_random ctx; pure (ctx.platform.password_hash salt plain)

  unfoldable pub verify_password : Str → Str → Bool
  verify_password plain hashed = ctx.platform.password_verify plain hashed

  unfoldable pub hash_reset_token : Str → Str
  hash_reset_token token = ctx.platform.sha256_hex token

  unfoldable pub create_access_token : Str → Str → Action (W ctx) Str
  create_access_token sub role = do
    now ← utc_now ctx
    pure (
        ctx.platform.jwt_encode
          (record {
            claims = access_claims sub role;
            exp = now + access_minutes * 60 * microsecond_second;
          })
          ctx.settings.jwt_secret)

  unfoldable pub create_refresh_token : Str → Action (W ctx) Str
  create_refresh_token sub = do
    now ← utc_now ctx
    pure (
        ctx.platform.jwt_encode
          (record {
            claims = refresh_claims sub;
            exp = now + refresh_days * 86400 * microsecond_second;
          })
          ctx.settings.jwt_secret)

  -- PyJWT compares `exp` with the instant of the call.
  unfoldable pub decode_token : Str → Action (W ctx) (Dict Claim)
  decode_token token = do
    now ← utc_now ctx
    or_raise (ctx.platform.jwt_decode now token ctx.settings.jwt_secret)
        (unauthorized_error (codes "Invalid or expired token"))

  abbrev invalid_payload : {A : Type 0} → Option A → Action (W ctx) A
  invalid_payload o = or_raise o (unauthorized_error (codes "Invalid token payload"))

  unfoldable pub get_current_user : Option Str → Action (W ctx) AuthenticatedUser
  get_current_user credentials = do
    token ← or_raise credentials (unauthorized_error (codes "Missing bearer token"))
    claims ← decode_token token
    raise_if (not (has_type (codes "access") claims))
        (unauthorized_error (codes "Invalid token type"))
    sub ← invalid_payload (text_claim (codes "sub") claims)
    role ← invalid_payload (text_claim (codes "role") claims)
    user_id ← invalid_payload (ctx.platform.parse_uuid sub)
    pure (record { user_id = user_id; role = role })

  -- `require_role(*allowed)` behind `get_current_user`
  unfoldable pub require_role : List Str → Option Str → Action (W ctx) AuthenticatedUser
  require_role allowed credentials = do
    user ← get_current_user credentials
    raise_if (not (contains user.role allowed)) (forbidden_error (codes "Insufficient permissions"))
    pure user

  unfoldable pub require_admin : Option Str → Action (W ctx) AuthenticatedUser
  unfolding require_role
  require_admin = require_role (admin_role ∷ [])
