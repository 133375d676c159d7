-- ===== src/Auth/Dependencies.antt =====
-- What `AuthService` of src/modules/auth/auth_service.py is built from, and how
-- src/modules/auth/auth_dependencies.py builds it.
use pizzaria_api.Prelude.{ℕ, Option}
use pizzaria_api.Prelude.Dict.{Str}
use pizzaria_api.Action.{Action}
use pizzaria_api.World.{Context, W, limiting}
use pizzaria_api.RateLimit.{RateLimitPolicy, check, record_attempt, reset}
use pizzaria_api.Email.{EmailService, get_email_service}
use pizzaria_api.Prisma.Rows.{TokenRow}
use pizzaria_api.Users.Repository.{UserRepositoryProtocol, get_user_repository}
use pizzaria_api.Auth.Tokens

-- `RateLimiterProtocol`
pub record RateLimiterProtocol (ctx : Context) : Type 0 where
  pub check : Str → RateLimitPolicy → Action (W ctx) (Unit {0})
  pub record_attempt : Str → RateLimitPolicy → Action (W ctx) (Unit {0})
  pub reset : Str → Action (W ctx) (Unit {0})

-- `PasswordResetTokenRepositoryProtocol`
pub record PasswordResetTokenRepositoryProtocol (ctx : Context) : Type 0 where
  pub create : ℕ → Str → ℕ → Action (W ctx) (Unit {0})
  pub delete_by_user_id : ℕ → Action (W ctx) (Unit {0})
  pub get_by_token_hash : Str → Action (W ctx) (Option TokenRow)
  pub reset_password : ℕ → ℕ → Str → Action (W ctx) (Unit {0})

-- The fields of `AuthService`.
pub record AuthService (ctx : Context) : Type 0 where
  pub repository : UserRepositoryProtocol ctx
  pub password_reset_repository : PasswordResetTokenRepositoryProtocol ctx
  pub email_service : EmailService
  pub rate_limiter : RateLimiterProtocol ctx

module _ (ctx : Context) where
  abbrev pub get_rate_limiter : RateLimiterProtocol ctx
  get_rate_limiter = record {
    check = λ key policy. limiting ctx (check ctx.clock key policy);
    record_attempt = λ key policy. limiting ctx (record_attempt ctx.clock key policy);
    reset = λ key. limiting ctx (reset key);
  }

  abbrev pub get_password_reset_token_repository : PasswordResetTokenRepositoryProtocol ctx
  get_password_reset_token_repository = record {
    create = Tokens.create ctx;
    delete_by_user_id = Tokens.delete_by_user_id ctx;
    get_by_token_hash = Tokens.get_by_token_hash ctx;
    reset_password = Tokens.reset_password ctx;
  }

  abbrev pub get_auth_repository : UserRepositoryProtocol ctx
  get_auth_repository = get_user_repository ctx

  -- `AuthService(…)` on the program's repositories and limiter.
  abbrev pub auth_service : EmailService → AuthService ctx
  auth_service email_service = record {
    repository = get_auth_repository;
    password_reset_repository = get_password_reset_token_repository;
    email_service = email_service;
    rate_limiter = get_rate_limiter;
  }

  abbrev pub get_auth_service : AuthService ctx
  get_auth_service = auth_service (get_email_service ctx.settings)
