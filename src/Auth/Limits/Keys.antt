-- ===== src/Auth/Limits/Keys.antt =====
-- The keys of src/modules/auth/auth_dependencies.py and src/modules/auth/auth_service.py share one
-- limiter.
use pizzaria_api.Prelude.{
  ◌≡◌, ◌≢◌, refl, ap, ℕ, Bool, true, false, Option, none, some, ◌++◌, ◌==◌, get_elem?,
}
use pizzaria_api.Prelude.Dict.{Str}
use pizzaria_api.Text.{codes}
use pizzaria_api.Action.{Action, ◌>>◌}
use pizzaria_api.RateLimit.{RateLimitPolicy, check, record_attempt}
use pizzaria_api.World.{Context, World, W, limiting}
use pizzaria_api.Auth.Limits.{
  ip_key, limit_by_ip, login_key, forgot_password_key, login_per_ip, forgot_password_per_ip,
  limit_login_by_ip, limit_forgot_password_by_ip, client_ip,
}

abbrev has_at : ℕ → ℕ → Str → Bool
has_at i c s = elim (get_elem? s i) [ none ↦ false | some d ↦ d == c ]

apart : (i c : ℕ) (s t : Str) → has_at i c s ≡ true → has_at i c t ≡ false → s ≢ t
apart i c s t there missing e = cc (ap (has_at i c) e)

-- The keys of the two counters by client, written out.
abbrev pub login_client_key : Option Str → Str
login_client_key none = codes "login:ip:unknown"
login_client_key (some host) = codes "login:ip:" ++ host

abbrev pub forgot_password_client_key : Option Str → Str
forgot_password_client_key none = codes "forgot-password:ip:unknown"
forgot_password_client_key (some host) = codes "forgot-password:ip:" ++ host

module _ (ctx : Context) where
  -- A caller is checked and then counted under this key.
  abbrev pub counts_under : Str → RateLimitPolicy → Action (W ctx) (Unit {0})
  counts_under key policy =
      limiting ctx (check ctx.clock key policy >> record_attempt ctx.clock key policy)

  limit_login_by_ip_lem :
      (client : Option Str) (w : World ctx)
      → limit_login_by_ip ctx client w ≡ counts_under (login_client_key client) login_per_ip w
  unfolding limit_login_by_ip limit_by_ip ip_key client_ip
  limit_login_by_ip_lem none w = refl
  limit_login_by_ip_lem (some host) w = refl

  limit_forgot_password_by_ip_lem :
      (client : Option Str) (w : World ctx)
      → limit_forgot_password_by_ip ctx client w
        ≡ counts_under (forgot_password_client_key client) forgot_password_per_ip w
  unfolding limit_forgot_password_by_ip limit_by_ip ip_key client_ip
  limit_forgot_password_by_ip_lem none w = refl
  limit_forgot_password_by_ip_lem (some host) w = refl

  email_keys :
      (email other : Str)
      → login_key ctx.platform.unicode email ≢ forgot_password_key ctx.platform.unicode other
  unfolding login_key forgot_password_key
  email_keys email other = apart 0 b'l' _ _ refl refl

  login_apart :
      (email : Str) (client : Option Str)
      → (login_key ctx.platform.unicode email ≢ login_client_key client)
        × (login_key ctx.platform.unicode email ≢ forgot_password_client_key client)
  unfolding login_key
  login_apart email none = (apart 6 b'e' _ _ refl refl, apart 0 b'l' _ _ refl refl)
  login_apart email (some host) = (apart 6 b'e' _ _ refl refl, apart 0 b'l' _ _ refl refl)

  forgot_password_apart :
      (email : Str) (client : Option Str)
      → (forgot_password_key ctx.platform.unicode email ≢ login_client_key client)
        × (forgot_password_key ctx.platform.unicode email ≢ forgot_password_client_key client)
  unfolding forgot_password_key
  forgot_password_apart email none = (apart 0 b'f' _ _ refl refl, apart 16 b'e' _ _ refl refl)
  forgot_password_apart email (some host) =
      (apart 0 b'f' _ _ refl refl, apart 16 b'e' _ _ refl refl)

  clients_apart :
      (client peer : Option Str) → login_client_key client ≢ forgot_password_client_key peer
  clients_apart none none = apart 0 b'l' _ _ refl refl
  clients_apart none (some _) = apart 0 b'l' _ _ refl refl
  clients_apart (some _) none = apart 0 b'l' _ _ refl refl
  clients_apart (some _) (some _) = apart 0 b'l' _ _ refl refl

  -- The two limits by client count each under its own key with its own policy, and neither these
  -- keys nor the two by address ever agree, whatever the addresses and the clients are.
  pub keys_disjoint :
      (email other : Str) (client peer : Option Str) (w : World ctx)
      → (limit_login_by_ip ctx client w ≡ counts_under (login_client_key client) login_per_ip w)
        × (limit_forgot_password_by_ip ctx peer w
            ≡ counts_under (forgot_password_client_key peer) forgot_password_per_ip w)
        × (login_client_key client ≢ forgot_password_client_key peer)
        × (login_key ctx.platform.unicode email ≢ forgot_password_key ctx.platform.unicode other)
        × ((login_key ctx.platform.unicode email ≢ login_client_key client)
            × (login_key ctx.platform.unicode email ≢ forgot_password_client_key client))
        × ((forgot_password_key ctx.platform.unicode other ≢ login_client_key peer)
            × (forgot_password_key ctx.platform.unicode other ≢ forgot_password_client_key peer))
  keys_disjoint email other client peer w = (
    limit_login_by_ip_lem client w,
    limit_forgot_password_by_ip_lem peer w,
    clients_apart client peer,
    email_keys email other,
    login_apart email client,
    forgot_password_apart other peer,
  )
