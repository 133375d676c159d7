-- ===== src/Auth/Service/Login.antt =====
-- `login` of src/modules/auth/auth_service.py, by what the counter says and the address finds.
use pizzaria_api.Prelude.{
  ℕ, ◌+◌, ◌-◌, ◌*◌, ◌≤◌, ◌≡◌, refl, ap, sym, ◌∙◌, Option, none, some, inl, inr, Bool-cases, true,
  false,
}
use pizzaria_api.Prelude.Dict.{Str}
use pizzaria_api.Errors.{domain, unauthorized_error, forbidden_error, too_many_requests_error}
use pizzaria_api.Action.{ok, failed, ◌>>=◌, >>=_inv}
use pizzaria_api.World.{Context, World, limiting, microsecond_second}
use pizzaria_api.World.Inversion.{failed_ok}
use pizzaria_api.RateLimit.{Window, Limiter, check, record_attempt, reset, ceil_seconds}
use pizzaria_api.RateLimit.Views.{view}
use pizzaria_api.RateLimit.Checks.{IsMonotone, check_blocks}
use pizzaria_api.RateLimit.Steps.{record_attempt-ok}
use pizzaria_api.Platform.{Laws}
use pizzaria_api.Security.{verify_password, access_minutes, get_current_user}
use pizzaria_api.Security.Tokens.{drawn}
use pizzaria_api.Prisma.Rows.{UserRow, RoleRow}
use pizzaria_api.Users.Repository.{get_by_email}
use pizzaria_api.Auth.Schema.{LoginDto, LoginResponseDto}
use pizzaria_api.Auth.Limits.{login_failures_per_email, login_key}
use pizzaria_api.Auth.Dependencies.{get_auth_service}
use pizzaria_api.Auth.Service.{
  identity_from, issue_tokens, login, logged_in, try_password, invalid_credentials_message,
  inactive_user_message,
}
use pizzaria_api.Auth.Service.Issue.{
  IsIssued, issue_tokens-IsIssued, IsIssued-authenticates, identity_from_inv,
}

module _ (ctx : Context) where
  abbrev pub key_of : LoginDto → Str
  key_of data_in = login_key ctx.platform.unicode data_in.email

  -- The address has an account, and the password is that account's.
  abbrev pub Opens : Str → Option UserRow → Type 0
  Opens password none = ⊥
  Opens password (some user) = verify_password ctx password user.hashed_password ≡ true

  abbrev pub counted : Str → World ctx → World ctx
  counted key w = record w {
    limiter = (record_attempt ctx.clock key login_failures_per_email w.limiter).1;
  }

  abbrev pub Admits : LoginDto → World ctx → World ctx → Type 0
  Admits data_in w v =
      limiting ctx (check ctx.clock (key_of data_in) login_failures_per_email) w ≡ (ok tt, v)

  pub try_password_fails :
      (key password : Str) (found : Option UserRow) (w : World ctx)
      → ¬ Opens password found
      → try_password ctx (get_auth_service ctx) key password found w
        ≡ (failed (domain (unauthorized_error invalid_credentials_message)), counted key w)
  try_password_fails key password none w closed =
      rw (record_attempt-ok ctx.clock key login_failures_per_email w.limiter)
  try_password_fails key password (some user) w closed =
      elim (Bool-cases (verify_password ctx password user.hashed_password)) [
        | inl t ↦ absurd (closed t)
        | inr f ↦
            rw (try_password, f, record_attempt-ok ctx.clock key login_failures_per_email w.limiter)
      ]

  login_step :
      (data_in : LoginDto) (found : Option UserRow) (w v : World ctx)
      → Admits data_in w v
      → get_by_email ctx data_in.email v ≡ (ok found, v)
      → login ctx (get_auth_service ctx) data_in w
        ≡ try_password ctx (get_auth_service ctx) (key_of data_in) data_in.password found v
  unfolding login
  login_step data_in found w v admitted read = rw admitted (rw read)

  -- While the counter of the address admits it, a login with an unknown address and one with a
  -- wrong password get the same 401, and each adds one attempt to the counter and does nothing
  -- else.
  pub login_rejects :
      (data_in : LoginDto) (found : Option UserRow) (w v : World ctx)
      → Admits data_in w v
      → get_by_email ctx data_in.email v ≡ (ok found, v)
      → ¬ Opens data_in.password found
      → login ctx (get_auth_service ctx) data_in w ≡ (
        failed (domain (unauthorized_error invalid_credentials_message)),
        counted (key_of data_in) v,
      )
  login_rejects data_in found w v admitted read closed =
      login_step data_in found w v admitted read
      ∙ try_password_fails (key_of data_in) data_in.password found v closed

  -- By a clock that never runs backwards, once five failures stand in the live window of the
  -- address, whatever password comes gets the same 429, which names a wait of at least a second and
  -- at most the rest of the window rounded up, and neither the database nor the outbox changes.
  pub login_blocked :
      (email : Str) (window : Window) (w : World ctx)
      → IsMonotone ctx.clock
      → view (ctx.clock w.limiter.reads) (login_key ctx.platform.unicode email) w.limiter
        ≡ some window
      → login_failures_per_email.max_attempts ≤ window.count
      → (wait : ℕ) × (limiter : Limiter) × (1 ≤ wait)
        × (wait ≤ ceil_seconds (window.expires_at - ctx.clock w.limiter.reads))
        × ((password : Str)
            → login ctx (get_auth_service ctx) (record { email = email; password = password }) w
              ≡ (failed (domain (too_many_requests_error wait)), record w { limiter = limiter }))
  unfolding login
  login_blocked email window w mono e full =
      let key = login_key ctx.platform.unicode email in
      let (wait, raised, least, most, _) =
        check_blocks ctx.clock key login_failures_per_email w.limiter window mono e full in
      (
        wait,
        (check ctx.clock key login_failures_per_email w.limiter).1,
        least,
        most,
        λ password. rw raised,
      )

  -- The right password of a deactivated account gets a 403; the counter is neither raised nor
  -- cleared, and no token is made.
  pub login_inactive :
      (data_in : LoginDto) (user : UserRow) (w v : World ctx)
      → Admits data_in w v
      → get_by_email ctx data_in.email v ≡ (ok (some user), v)
      → Opens data_in.password (some user)
      → user.is_active ≡ false
      → login ctx (get_auth_service ctx) data_in w
        ≡ (failed (domain (forbidden_error inactive_user_message)), v)
  login_inactive data_in user w v admitted read opens inactive =
      login_step data_in (some user) w v admitted read ∙ rw (try_password, opens, inactive)

  -- A login that returned went through every step: the address has an active account with this
  -- password, whose role the response names, the counter of the address is cleared, and the tokens
  -- are issued for that account.
  pub record Succeeded (data_in : LoginDto) (w : World ctx) (response : LoginResponseDto)
      (t : World ctx) : Type 0 where
    pub admitted : World ctx
    pub admits : Admits data_in w admitted
    pub user : UserRow
    pub found : World ctx
    pub account : get_by_email ctx data_in.email admitted ≡ (ok (some user), found)
    pub opens : Opens data_in.password (some user)
    pub active : user.is_active ≡ true
    pub identity : ctx.platform.parse_uuid user.id ≡ some response.user.id
    pub role : RoleRow
    pub has_role : user.role ≡ some role
    pub named : response.user.role ≡ role.name
    pub issued :
        IsIssued ctx response
          (record found { limiter = (reset (key_of data_in) found.limiter).1 })
          t

  logged_in_inv :
      (key : Str) (user : UserRow) (response : LoginResponseDto) (s t : World ctx)
      → logged_in ctx (get_auth_service ctx) key user s ≡ (ok response, t)
      → (user.is_active ≡ true)
        × (ctx.platform.parse_uuid user.id ≡ some response.user.id)
        × ((role : RoleRow) × (user.role ≡ some role) × (response.user.role ≡ role.name))
        × IsIssued ctx response (record s { limiter = (reset key s.limiter).1 }) t
  unfolding reset issue_tokens identity_from
  logged_in_inv key user response s t h = elim (Bool-cases user.is_active) [
    | inr off ↦ absurd (failed_ok (rw off at h))
    | inl on ↦
        let g = rw on at h in
        let (identity, x, e, f) =
          >>=_inv (identity_from ctx user) (issue_tokens ctx)
            (record s { limiter = (reset key s.limiter).1 }) g in
        let (role, r, i, n, same) = identity_from_inv ctx user identity _ x e in
        let (issued, id, named) = issue_tokens-IsIssued ctx identity response x t f in
        (on, i ∙ ap some (sym id), (role, r, named ∙ n), rw same at issued)
  ]

  try_password_inv :
      (key password : Str) (found : Option UserRow) (response : LoginResponseDto) (s t : World ctx)
      → try_password ctx (get_auth_service ctx) key password found s ≡ (ok response, t)
      → (user : UserRow) × (found ≡ some user)
        × Opens password (some user)
        × (logged_in ctx (get_auth_service ctx) key user s ≡ (ok response, t))
  try_password_inv key password none response s t h =
      absurd
        (failed_ok (rw (record_attempt-ok ctx.clock key login_failures_per_email s.limiter) at h))
  try_password_inv key password (some user) response s t h =
      elim (Bool-cases (verify_password ctx password user.hashed_password)) [
        | inl opens ↦ (user, refl, opens, rw (try_password, opens) at h)
        | inr shut ↦
            absurd (failed_ok (rw (try_password_fails key password (some user) s (λ o. cc)) at h))
      ]

  -- What `Succeeded` says holds of every login that returned.
  pub login-Succeeded :
      (data_in : LoginDto) (w : World ctx) (response : LoginResponseDto) (t : World ctx)
      → login ctx (get_auth_service ctx) data_in w ≡ (ok response, t)
      → Succeeded data_in w response t
  unfolding login
  login-Succeeded data_in w response t h =
      let (_, v, admits, rest) =
        >>=_inv (limiting ctx (check ctx.clock (key_of data_in) login_failures_per_email))
          (λ _.
            get_by_email ctx data_in.email
            >>= try_password ctx (get_auth_service ctx) (key_of data_in) data_in.password)
          w h in
      let (found, x, read, last) =
        >>=_inv (get_by_email ctx data_in.email)
          (try_password ctx (get_auth_service ctx) (key_of data_in) data_in.password) v rest in
      let (user, same, opens, inside) =
        try_password_inv (key_of data_in) data_in.password found response x t last in
      let (active, identity, (role, has_role, named), issued) =
        logged_in_inv (key_of data_in) user response x t inside in
      record {
        admitted = v;
        admits = admits;
        user = user;
        found = x;
        account = rw same at read;
        opens = opens;
        active = active;
        identity = identity;
        role = role;
        has_role = has_role;
        named = named;
        issued = issued;
      }

  -- A login that returned went through every step: the counter of the address admitted it, the
  -- address has an active account with this password, the response names its id and role, the
  -- counter is cleared and the tokens are issued. And for a quarter of an hour less the second to
  -- which the token rounds, the access token proves that its bearer is this account, with this
  -- role.
  pub login-get_current_user :
      (data_in : LoginDto) (w : World ctx) (response : LoginResponseDto) (t : World ctx)
      → Laws ctx.platform
      → login ctx (get_auth_service ctx) data_in w ≡ (ok response, t)
      → (s : Succeeded data_in w response t) × ((x : World ctx)
          → ctx.utc x.draws + microsecond_second
            ≤ ctx.utc s.found.draws + access_minutes * 60 * microsecond_second
          → get_current_user ctx (some response.access_token) x
            ≡ (ok (record { user_id = response.user.id; role = s.role.name }), drawn x))
  login-get_current_user data_in w response t laws h =
      let s = login-Succeeded data_in w response t h in
      (s, λ x fresh. rw (← s.named) (IsIssued-authenticates ctx response _ t x laws s.issued fresh))
