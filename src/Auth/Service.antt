-- ===== src/Auth/Service.antt =====
-- src/modules/auth/auth_service.py: `AuthService`.
pub mod Issue
pub mod Login
pub mod Refresh
pub mod Deleted
pub mod Reset
pub mod Marks
pub mod Redemption
pub mod Forgot
pub mod Effects
pub mod Guesses
use pizzaria_api.Prelude.{ℕ, ◌+◌, ◌*◌, Bool, true, false, not, Option, none, some, ltb}
use pizzaria_api.Prelude.Dict.{Str}
use pizzaria_api.Text.{codes}
use pizzaria_api.Errors.{
  DomainError, bad_request_error, forbidden_error, internal_error, unauthorized_error,
  feature_unavailable_error,
}
use pizzaria_api.Action.{Action, pure, raise, raise_if, or_raise, ◌>>=◌, ◌>>◌}
use pizzaria_api.World.{
  Context, W, limiting, or_unhandled, utc_now, draw_random, microsecond_second,
}
use pizzaria_api.Security.{
  has_type, text_claim, hash_password, verify_password, hash_reset_token, create_access_token,
  create_refresh_token, decode_token,
}
use pizzaria_api.Email.{
  EmailService, get_email_service, is_available, send_password_reset_email,
  email_unavailable_message,
}
use pizzaria_api.Prisma.Rows.{UserRow, TokenRow}
use pizzaria_api.Prisma.Meaning.{is_none}
use pizzaria_api.Auth.Schema.{LoginDto, ResetPasswordDto, LoginResponseDto}
use pizzaria_api.Auth.Dependencies.{AuthService}
use pizzaria_api.Auth.Limits.{
  login_failures_per_email, forgot_password_per_email, login_key, forgot_password_key,
}

abbrev pub invalid_token_message : Str
invalid_token_message = codes "Invalid token"

abbrev pub inactive_user_message : Str
inactive_user_message = codes "User is inactive"

abbrev pub invalid_credentials_message : Str
invalid_credentials_message = codes "Invalid credentials"

-- `_UserIdentity`
pub record UserIdentity : Type 0 where
  pub user_id : ℕ
  pub name : Str
  pub role : Str

module _ (ctx : Context) where
  unfoldable pub identity_from : UserRow → Action (W ctx) UserIdentity
  identity_from user = do
    role ← or_raise user.role internal_error
    user_id ← or_unhandled ctx (ctx.platform.parse_uuid user.id)
    pure (record { user_id = user_id; name = user.name; role = role.name })

  unfoldable pub issue_tokens : UserIdentity → Action (W ctx) LoginResponseDto
  unfolding create_access_token create_refresh_token
  issue_tokens identity = do
    access ← create_access_token ctx (ctx.platform.uuid_text identity.user_id) identity.role
    refresh ← create_refresh_token ctx (ctx.platform.uuid_text identity.user_id)
    pure (record {
      user = record { id = identity.user_id; name = identity.name; role = identity.role };
      access_token = access;
      refresh_token = refresh;
      expires_in = 900;
    })

  abbrev pub or_invalid_token : {A : Type 0} → Option A → Action (W ctx) A
  or_invalid_token o = or_raise o (unauthorized_error invalid_token_message)

  abbrev pub bad_token : DomainError
  bad_token = bad_request_error invalid_token_message

  -- The methods, on any repositories, limiter and e-mail service.
  module _ (self : AuthService ctx) where
    -- `raise self._login_failed(rate_limit_key)`
    abbrev pub login_failed : {A : Type 0} → Str → Action (W ctx) A
    login_failed rate_limit_key = do
      self.rate_limiter.record_attempt rate_limit_key login_failures_per_email
      raise (unauthorized_error invalid_credentials_message)

    -- What follows once the password is right.
    abbrev pub logged_in : Str → UserRow → Action (W ctx) LoginResponseDto
    logged_in rate_limit_key user = do
      raise_if (not user.is_active) (forbidden_error inactive_user_message)
      self.rate_limiter.reset rate_limit_key
      identity ← identity_from user
      issue_tokens identity

    -- The client types `hashedPassword` as a text, so the test `isinstance(…, str)` passes.
    abbrev pub try_password : Str → Str → Option UserRow → Action (W ctx) LoginResponseDto
    try_password rate_limit_key password none = login_failed rate_limit_key
    try_password rate_limit_key password (some user) =
        elim (verify_password ctx password user.hashed_password) [
          | true ↦ logged_in rate_limit_key user
          | false ↦ login_failed rate_limit_key
        ]

    unfoldable pub login : LoginDto → Action (W ctx) LoginResponseDto
    login data_in = do
      self.rate_limiter.check (login_key ctx.platform.unicode data_in.email)
          login_failures_per_email
      user ← self.repository.get_by_email data_in.email
      try_password (login_key ctx.platform.unicode data_in.email) data_in.password user

    unfoldable pub refresh_token : Str → Action (W ctx) LoginResponseDto
    refresh_token token = do
      claims ← decode_token ctx token
      raise_if (not (has_type (codes "refresh") claims))
          (unauthorized_error (codes "Invalid token type"))
      sub ← or_invalid_token (text_claim (codes "sub") claims)
      user_id ← or_invalid_token (ctx.platform.parse_uuid sub)
      found ← self.repository.get_by_id user_id
      user ← or_invalid_token found
      raise_if (not user.is_active) (forbidden_error inactive_user_message)
      identity ← identity_from user
      issue_tokens identity

    -- The rest of `forgot_password`, by what the address found.
    abbrev pub send_reset : Str → Option UserRow → Action (W ctx) (Unit {0})
    send_reset email none = do
      dummy ← draw_random ctx
      hash_password ctx (ctx.platform.uuid_text dummy)
      pure tt
    send_reset email (some user) = do
      user_id ← or_unhandled ctx (ctx.platform.parse_uuid user.id)
      drawn ← draw_random ctx
      now ← utc_now ctx
      self.password_reset_repository.delete_by_user_id user_id
      self.password_reset_repository.create user_id
          (hash_reset_token ctx (ctx.platform.uuid_text drawn)) (now + 3600 * microsecond_second)
      send_password_reset_email ctx self.email_service email (ctx.platform.uuid_text drawn)

    unfoldable pub forgot_password : Str → Action (W ctx) (Unit {0})
    forgot_password email = do
      raise_if (not (is_available self.email_service))
          (feature_unavailable_error email_unavailable_message)
      self.rate_limiter.check (forgot_password_key ctx.platform.unicode email)
          forgot_password_per_email
      self.rate_limiter.record_attempt (forgot_password_key ctx.platform.unicode email)
          forgot_password_per_email
      user ← self.repository.get_by_email email
      send_reset email user

    unfoldable pub reset_password : ResetPasswordDto → Action (W ctx) (Unit {0})
    reset_password data_in = do
      found ← self.password_reset_repository.get_by_token_hash (hash_reset_token ctx data_in.token)
      token ← or_raise found bad_token
      raise_if (not (is_none token.used_at)) bad_token
      now ← utc_now ctx
      raise_if (ltb token.expires_at now) bad_token
      reset_user_id ← or_unhandled ctx (ctx.platform.parse_uuid token.user_id)
      account ← self.repository.get_by_id reset_user_id
      user ← or_raise account bad_token
      raise_if (not user.is_active) (forbidden_error inactive_user_message)
      hashed ← hash_password ctx data_in.new_password
      user_id ← or_unhandled ctx (ctx.platform.parse_uuid user.id)
      token_id ← or_unhandled ctx (ctx.platform.parse_uuid token.id)
      self.password_reset_repository.reset_password user_id token_id hashed
