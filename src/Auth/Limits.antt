-- ===== src/Auth/Limits.antt =====
-- The limits of src/modules/auth/auth_dependencies.py and src/modules/auth/auth_service.py, and the
-- keys that they count under.
pub mod Keys
use pizzaria_api.Prelude.{ℕ, ◌*◌, Option, none, some, ◌++◌}
use pizzaria_api.Prelude.Dict.{Str}
use pizzaria_api.Text.{Unicode, codes, lower}
use pizzaria_api.Action.{Action, ◌>>=◌, ◌>>◌}
use pizzaria_api.World.{Context, W, limiting}
use pizzaria_api.RateLimit.{RateLimitPolicy, Limiter, check, record_attempt}

abbrev pub login_per_ip : RateLimitPolicy
login_per_ip = record { max_attempts = 20; window_seconds = 60 }

abbrev pub forgot_password_per_ip : RateLimitPolicy
forgot_password_per_ip = record { max_attempts = 5; window_seconds = 15 * 60 }

abbrev pub login_failures_per_email : RateLimitPolicy
login_failures_per_email = record { max_attempts = 5; window_seconds = 15 * 60 }

abbrev pub forgot_password_per_email : RateLimitPolicy
forgot_password_per_email = record { max_attempts = 3; window_seconds = 60 * 60 }

-- `_client_ip`, from `request.client.host`
unfoldable pub client_ip : Option Str → Str
client_ip none = codes "unknown"
client_ip (some host) = host

unfoldable pub ip_key : Str → Option Str → Str
unfolding client_ip
ip_key scope client = scope ++ codes ":ip:" ++ client_ip client

unfoldable pub login_key : Unicode → Str → Str
login_key u email = codes "login:email:" ++ lower u email

unfoldable pub forgot_password_key : Unicode → Str → Str
forgot_password_key u email = codes "forgot-password:email:" ++ lower u email

-- `_limit_by_ip`, with the limiter's clock
unfoldable pub limit_by_ip :
    (ℕ → ℕ) → Str → RateLimitPolicy → Option Str → Action Limiter (Unit {0})
limit_by_ip clock scope policy client = do
  check clock (ip_key scope client) policy
  record_attempt clock (ip_key scope client) policy

module _ (ctx : Context) where
  unfoldable pub limit_login_by_ip : Option Str → Action (W ctx) (Unit {0})
  unfolding limit_by_ip
  limit_login_by_ip client =
      limiting ctx (limit_by_ip ctx.clock (codes "login") login_per_ip client)

  unfoldable pub limit_forgot_password_by_ip : Option Str → Action (W ctx) (Unit {0})
  unfolding limit_by_ip
  limit_forgot_password_by_ip client =
      limiting ctx (limit_by_ip ctx.clock (codes "forgot-password") forgot_password_per_ip client)
