-- ===== src/Security/Guards.antt =====
-- Whom the guards of src/core/security_dependencies.py let through, and what they leave alone.
use pizzaria_api.Prelude.{
  ℕ, ◌≡◌, ◌≢◌, ap, refl, true, Option, none, some, inl, inr, Bool-cases, Option-cases, ◌⊎◌,
}
use pizzaria_api.Prelude.Dict.{Str, Dict, str_eq, str_eq_sound, str_eq_refl, contains}
use pizzaria_api.Text.{codes}
use pizzaria_api.Errors.{DomainError, domain, unauthorized_error, forbidden_error}
use pizzaria_api.Action.{Action, Result, ok, failed, ◌>>=◌, resume, >>=_ok}
use pizzaria_api.Platform.{Claim}
use pizzaria_api.World.{Context, World}
use pizzaria_api.Security.{
  AuthenticatedUser, admin_role, text_claim, has_type, decode_token, get_current_user,
  require_admin,
}
use pizzaria_api.Security.Tokens.{drawn}

module _ (ctx : Context) where
  -- The bearer token decodes at this instant, to the claims of an access token of this user.
  pub record IsAuthentic (credentials : Option Str) (w : World ctx) (user : AuthenticatedUser)
      : Type 0 where
    pub token : Str
    pub claims : Dict Claim
    pub sub : Str
    pub carried : credentials ≡ some token
    pub decoded :
        ctx.platform.jwt_decode (ctx.utc w.draws) token ctx.settings.jwt_secret ≡ some claims
    pub access : has_type (codes "access") claims ≡ true
    pub subject : text_claim (codes "sub") claims ≡ some sub
    pub identity : ctx.platform.parse_uuid sub ≡ some user.user_id
    pub role : text_claim (codes "role") claims ≡ some user.role

  -- A refusal with this status, which has changed nothing but the count of readings.
  pub record Refuses {A : Type 0} (status : ℕ) (w : World ctx) (p : Result A × World ctx)
      : Type 0 where
    pub error : DomainError
    pub raised : p.0 ≡ failed (domain error)
    pub status_code : error.status_code ≡ status
    pub db : p.1.db ≡ w.db
    pub limiter : p.1.limiter ≡ w.limiter
    pub outbox : p.1.outbox ≡ w.outbox

  decode_token-none :
      (token : Str) (w : World ctx)
      → ctx.platform.jwt_decode (ctx.utc w.draws) token ctx.settings.jwt_secret ≡ none
      → decode_token ctx token w
        ≡ (failed (domain (unauthorized_error (codes "Invalid or expired token"))), drawn w)
  unfolding decode_token
  decode_token-none token w e = rw e

  decode_token-some :
      (token : Str) (w : World ctx) (claims : Dict Claim)
      → ctx.platform.jwt_decode (ctx.utc w.draws) token ctx.settings.jwt_secret ≡ some claims
      → decode_token ctx token w ≡ (ok claims, drawn w)
  unfolding decode_token
  decode_token-some token w claims e = rw e

  pub refused :
      {A : Type 0} (message : Str) (w : World ctx)
      → Refuses {A = A} 401 w (failed (domain (unauthorized_error message)), w)
  unfolding unauthorized_error
  refused message w = record {
    error = _;
    raised = refl;
    status_code = refl;
    db = refl;
    limiter = refl;
    outbox = refl;
  }

  pub refused_drawn :
      {A : Type 0} (message : Str) (w : World ctx)
      → Refuses {A = A} 401 w (failed (domain (unauthorized_error message)), drawn w)
  unfolding unauthorized_error
  refused_drawn message w = record {
    error = _;
    raised = refl;
    status_code = refl;
    db = refl;
    limiter = refl;
    outbox = refl;
  }

  -- Either the bearer token decodes to the claims of an access token and the caller is the user
  -- that it names, or the request gets a 401 with nothing changed.
  pub get_current_user_outcome :
      (credentials : Option Str) (w : World ctx)
      → ((user : AuthenticatedUser) × IsAuthentic credentials w user
          × (get_current_user ctx credentials w ≡ (ok user, drawn w)))
        ⊎ Refuses 401 w (get_current_user ctx credentials w)
  unfolding get_current_user
  get_current_user_outcome none w = inr (refused _ w)
  get_current_user_outcome (some token) w =
      elim (Option-cases
        (ctx.platform.jwt_decode (ctx.utc w.draws) token ctx.settings.jwt_secret)) [
          | inl e ↦ rw (decode_token-none token w e) (inr (refused_drawn _ w))
          | inr (claims, decoded) ↦
              rw (decode_token-some token w claims decoded)
                (elim (Bool-cases (has_type (codes "access") claims)) [
                  | inr t ↦ rw t (inr (refused_drawn _ w))
                  | inl t ↦ elim (Option-cases (text_claim (codes "sub") claims)) [
                    | inl s ↦ rw (t, s) (inr (refused_drawn _ w))
                    | inr (sub, s) ↦ elim (Option-cases (text_claim (codes "role") claims)) [
                      | inl r ↦ rw (t, s, r) (inr (refused_drawn _ w))
                      | inr (role, r) ↦ elim (Option-cases (ctx.platform.parse_uuid sub)) [
                        | inl i ↦ rw (t, s, r, i) (inr (refused_drawn _ w))
                        | inr (id, i) ↦
                            rw (t, s, r, i)
                              (inl (
                                record { user_id = id; role = role },
                                record {
                                  token = token;
                                  claims = claims;
                                  sub = sub;
                                  carried = refl;
                                  decoded = decoded;
                                  access = t;
                                  subject = s;
                                  identity = i;
                                  role = r;
                                },
                                refl,
                              ))
                      ]
                    ]
                  ]
                ])
        ]

  -- A token of an access token's claims is accepted.
  get_current_user-IsAuthentic :
      (credentials : Option Str) (w : World ctx) (user : AuthenticatedUser)
      → IsAuthentic credentials w user
      → get_current_user ctx credentials w ≡ (ok user, drawn w)
  unfolding get_current_user decode_token
  get_current_user-IsAuthentic credentials w user a =
      rw (a.carried, a.decoded, a.access, a.subject, a.role, a.identity)

  -- So a 401 is for those whose token proves nobody.
  pub Refuses-anonymous :
      (credentials : Option Str) (w : World ctx)
      → Refuses 401 w (get_current_user ctx credentials w)
      → (user : AuthenticatedUser) → ¬ IsAuthentic credentials w user
  Refuses-anonymous credentials w r user a =
      cc (r.raised, ap (λ p. p.0) (get_current_user-IsAuthentic credentials w user a))

  -- What a guard refuses, nothing behind it is reached.
  pub Refuses-resume :
      {A B : Type 0} (f : A → Action (World ctx) B) (status : ℕ) (w : World ctx)
      (p : Result A × World ctx)
      → Refuses status w p
      → Refuses status w (resume f p)
  Refuses-resume f status w (failed e, s) r = record {
    error = r.error;
    raised = cc (r.raised);
    status_code = r.status_code;
    db = r.db;
    limiter = r.limiter;
    outbox = r.outbox;
  }
  Refuses-resume f status w (ok a, s) r = cc (r.raised)

  pub forbidden :
      {A : Type 0} (message : Str) (w : World ctx)
      → Refuses {A = A} 403 w (failed (domain (forbidden_error message)), drawn w)
  unfolding forbidden_error
  forbidden message w = record {
    error = _;
    raised = refl;
    status_code = refl;
    db = refl;
    limiter = refl;
    outbox = refl;
  }

  -- `require_admin` lets through authentic users with the role ADMIN; a token that proves nobody
  -- gets a 401 and one of another role a 403, and nothing has changed.
  pub require_admin_outcome :
      (credentials : Option Str) (w : World ctx)
      → ((user : AuthenticatedUser) × IsAuthentic credentials w user
          × (user.role ≡ admin_role)
          × (require_admin ctx credentials w ≡ (ok user, drawn w)))
        ⊎ (((user : AuthenticatedUser) → ¬ IsAuthentic credentials w user)
            × Refuses 401 w (require_admin ctx credentials w))
        ⊎ ((user : AuthenticatedUser) × IsAuthentic credentials w user
            × (user.role ≢ admin_role)
            × Refuses 403 w (require_admin ctx credentials w))
  unfolding require_admin contains
  require_admin_outcome credentials w = elim (get_current_user_outcome credentials w) [
    | inr r ↦ inr (inl (Refuses-anonymous credentials w r, Refuses-resume _ 401 w _ r))
    | inl (user, authentic, e) ↦ rw e (elim (Bool-cases (str_eq user.role admin_role)) [
      | inl t ↦ rw t (inl (user, authentic, str_eq_sound _ _ t, refl))
      | inr t ↦
          rw t (
            inr
              (inr (user, authentic, λ same. cc (t, same, str_eq_refl admin_role), forbidden _ w)))
    ])
  ]

  -- What an endpoint behind `require_admin` does: the caller is an authentic administrator and the
  -- rest runs, or the token proves nobody and the request ends in a 401, or it proves a user of
  -- another role and the request ends in a 403; a refusal has changed nothing.
  abbrev pub AdminOnly :
      {A : Type 0} → Option Str → World ctx → Result A × World ctx → Result A × World ctx → Type 0
  AdminOnly credentials w rest p =
      ((user : AuthenticatedUser) × IsAuthentic credentials w user
        × (user.role ≡ admin_role)
        × (p ≡ rest))
      ⊎ (((user : AuthenticatedUser) → ¬ IsAuthentic credentials w user) × Refuses 401 w p)
      ⊎ ((user : AuthenticatedUser) × IsAuthentic credentials w user
          × (user.role ≢ admin_role)
          × Refuses 403 w p)

  pub require_admin-AdminOnly :
      {A : Type 0} (credentials : Option Str) (rest : Action (World ctx) A) (w : World ctx)
      → AdminOnly credentials w (rest (drawn w)) ((require_admin ctx credentials >>= λ _. rest) w)
  require_admin-AdminOnly credentials rest w = elim (require_admin_outcome credentials w) [
    | inl (user, authentic, role, e) ↦
        inl (user, authentic, role, >>=_ok (require_admin ctx credentials) (λ _. rest) w e)
    | inr (inl (nobody, r)) ↦ inr (inl (nobody, Refuses-resume _ 401 w _ r))
    | inr (inr (user, authentic, other, r)) ↦
        inr (inr (user, authentic, other, Refuses-resume _ 403 w _ r))
  ]
