-- ===== src/Auth/Service/Effects.antt =====
-- What one `login` of src/modules/auth/auth_service.py does to the limiter, whatever it answers.
use pizzaria_api.Prelude.{
  ◌≡◌, refl, Bool, true, false, Option, none, some, ◌==◌, ◌⊎◌, inl, inr, Bool-cases, [], ◌∷◌,
  Option-cases, arith,
}
use pizzaria_api.Errors.{
  Exception, domain, too_many_requests_error, unauthorized_error, forbidden_error, internal_error,
}
use pizzaria_api.Action.{Action, Result, ok, failed, ◌>>=◌}
use pizzaria_api.World.{Context, World, Db, limiting}
use pizzaria_api.RateLimit.{check, reset}
use pizzaria_api.RateLimit.Steps.{record_attempt-ok}
use pizzaria_api.Security.{verify_password, create_access_token, create_refresh_token}
use pizzaria_api.Prisma.Table.{Reply, PrismaError, returned, raised}
use pizzaria_api.Prisma.Rows.{UserRow}
use pizzaria_api.Prisma.Rows.UserCond.{email_is, not_deleted}
use pizzaria_api.Users.Repository.{get_by_email}
use pizzaria_api.Auth.Schema.{LoginDto, LoginResponseDto}
use pizzaria_api.Auth.Limits.{login_failures_per_email}
use pizzaria_api.Auth.Dependencies.{get_auth_service}
use pizzaria_api.Auth.Service.{
  identity_from, issue_tokens, login, logged_in, login_failed, try_password,
}
use pizzaria_api.Auth.Service.Login.{key_of, counted}

abbrev is_unauthorized : Exception → Bool
is_unauthorized (domain e) = e.status_code == 401
is_unauthorized _ = false

-- A 401: what a login answers once a password was compared, or no account was found.
abbrev pub is_guess : {A : Type 0} → Result A → Bool
is_guess (failed x) = is_unauthorized x
is_guess (ok _) = false

module _ (ctx : Context) where
  -- What stands of the state after a login that does not write.
  abbrev Settled : {A : Type 0} → World ctx → Result A × World ctx → Type 0
  Settled w (r, t) = (is_guess r ≡ false) × (t.db ≡ w.db) × (t.limiter ≡ w.limiter)

  -- What the address finds in this database.
  abbrev pub account_of : LoginDto → Db ctx → Reply (Option UserRow)
  account_of data_in db = ctx.client.user.find_first (email_is data_in.email ∷ not_deleted ∷ []) db

  -- The password is the one of the account that the address finds.
  abbrev pub OpensIn : LoginDto → Db ctx → Type 0
  OpensIn data_in db =
      (user : UserRow) × (account_of data_in db ≡ returned (some user))
      × (verify_password ctx data_in.password user.hashed_password ≡ true)

  issued_Settled :
      (user : UserRow) (w : World ctx) → Settled w ((identity_from ctx user >>= issue_tokens ctx) w)
  unfolding identity_from issue_tokens create_access_token create_refresh_token internal_error
  issued_Settled user w = elim (Option-cases user.role) [
    | inl absent ↦ rw absent (refl, refl, refl)
    | inr (role, r) ↦ elim (Option-cases (ctx.platform.parse_uuid user.id)) [
      | inl bad ↦ rw (r, bad) (refl, refl, refl)
      | inr (id, i) ↦ rw (r, i) (refl, refl, refl)
    ]
  ]

  -- The counter of the address, asked.
  abbrev pub asked : LoginDto → World ctx → Result (Unit {0}) × World ctx
  asked data_in w = limiting ctx (check ctx.clock (key_of ctx data_in) login_failures_per_email) w

  -- The rest of a login stopped early, or it counted one failure, or the password was right and it
  -- cleared the counter.
  pub data Change (data_in : LoginDto) (v : World ctx) (r : Result LoginResponseDto) (t : World ctx)
      : Type 0 where
    stopped : is_guess r ≡ false → t.limiter ≡ v.limiter → Change data_in v r t
    guessed :
        is_guess r ≡ true
        → t.limiter ≡ (counted ctx (key_of ctx data_in) v).limiter
        → Change data_in v r t
    opened :
        is_guess r ≡ false
        → OpensIn data_in v.db
        → t.limiter ≡ (reset (key_of ctx data_in) v.limiter).1
        → Change data_in v r t

  abbrev pub Ends : LoginDto → World ctx → Result LoginResponseDto × World ctx → Type 0
  Ends data_in v (r, t) = (t.db ≡ v.db) × Change data_in v r t

  logged_in-Ends :
      (data_in : LoginDto) (user : UserRow) (v : World ctx)
      → account_of data_in v.db ≡ returned (some user)
      → verify_password ctx data_in.password user.hashed_password ≡ true
      → Ends data_in v (logged_in ctx (get_auth_service ctx) (key_of ctx data_in) user v)
  unfolding forbidden_error reset identity_from
  logged_in-Ends data_in user v found right = elim (Bool-cases user.is_active) [
    | inr off ↦ rw off (refl, stopped refl refl)
    | inl on ↦
        let (quiet, db, limiter) =
          issued_Settled user (record v { limiter = (reset (key_of ctx data_in) v.limiter).1 }) in
        rw on (db, opened quiet (user, found, right) limiter)
  ]

  failed-Ends :
      (data_in : LoginDto) (v : World ctx)
      → Ends data_in v (login_failed ctx (get_auth_service ctx) (key_of ctx data_in) v)
  unfolding unauthorized_error
  failed-Ends data_in v =
      rw (record_attempt-ok ctx.clock (key_of ctx data_in) login_failures_per_email v.limiter)
        (refl, guessed refl refl)

  try_password-Ends :
      (data_in : LoginDto) (found : Option UserRow) (v : World ctx)
      → account_of data_in v.db ≡ returned found
      → Ends data_in v
          (try_password ctx (get_auth_service ctx) (key_of ctx data_in) data_in.password found v)
  try_password-Ends data_in none v read = failed-Ends data_in v
  try_password-Ends data_in (some user) v read =
      elim (Bool-cases (verify_password ctx data_in.password user.hashed_password)) [
        | inl right ↦ rw (try_password, right) (logged_in-Ends data_in user v read right)
        | inr wrong ↦ rw (try_password, wrong) (failed-Ends data_in v)
      ]

  -- `login` once the counter let the caller through.
  abbrev pub finish_login : LoginDto → Action (World ctx) LoginResponseDto
  finish_login data_in =
      get_by_email ctx data_in.email
      >>= try_password ctx (get_auth_service ctx) (key_of ctx data_in) data_in.password

  Reply-cases :
      {A : Type 0} (r : Reply A)
      → ((a : A) × (r ≡ returned a)) ⊎ ((e : PrismaError) × (r ≡ raised e))
  Reply-cases (returned a) = inl (a, refl)
  Reply-cases (raised e) = inr (e, refl)

  pub finish_login-Ends :
      (data_in : LoginDto) (v : World ctx) → Ends data_in v (finish_login data_in v)
  unfolding get_by_email
  finish_login-Ends data_in v =
      elim (Reply-cases
        (ctx.client.user.find_first (email_is data_in.email ∷ not_deleted ∷ []) v.db)) [
          | inl (found, e) ↦ rw e (try_password-Ends data_in found v e)
          | inr (error, e) ↦ rw e (refl, stopped refl refl)
        ]

  -- What the whole login is, by the answer of the counter.
  pub login_admitted :
      (data_in : LoginDto) (w : World ctx)
      → (asked data_in w).0 ≡ ok tt
      → login ctx (get_auth_service ctx) data_in w ≡ finish_login data_in (asked data_in w).1
  unfolding login
  login_admitted data_in w e = rw e

  pub login_refused :
      (data_in : LoginDto) (w : World ctx) {e : Exception}
      → (asked data_in w).0 ≡ failed e
      → login ctx (get_auth_service ctx) data_in w ≡ (failed e, (asked data_in w).1)
  unfolding login
  login_refused data_in w e = rw e

  pub is_guess-asked : (data_in : LoginDto) (w : World ctx) → is_guess (asked data_in w).0 ≡ false
  unfolding check too_many_requests_error
  is_guess-asked data_in w = ground arith
