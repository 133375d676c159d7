-- ===== src/Auth/Service/Reset.antt =====
-- `reset_password` of src/modules/auth/auth_service.py: which tokens it redeems.
use pizzaria_api.Prelude.{
  ℕ, ◌≤◌, ◌≡◌, refl, Option, none, some, inl, inr, Bool-cases, Option-cases, arith, ltb,
}
use pizzaria_api.Errors.{domain, bad_request_error}
use pizzaria_api.Action.{ok, failed}
use pizzaria_api.World.{Context, World}
use pizzaria_api.Security.{hash_reset_token}
use pizzaria_api.Security.Tokens.{drawn}
use pizzaria_api.Security.Guards.{Refuses}
use pizzaria_api.Prisma.Rows.{TokenRow}
use pizzaria_api.Auth.Tokens.{get_by_token_hash}
use pizzaria_api.Auth.Schema.{ResetPasswordDto}
use pizzaria_api.Auth.Dependencies.{get_auth_service}
use pizzaria_api.Auth.Service.{reset_password, bad_token}

module _ (ctx : Context) where
  -- A token of the table that is neither used nor past its expiry.
  abbrev pub Redeemable : ℕ → Option TokenRow → Type 0
  Redeemable now none = ⊥
  Redeemable now (some token) = (token.used_at ≡ none) × (now ≤ token.expires_at)

  bad_request :
      {A : Type 0} (w : World ctx) → Refuses ctx {A = A} 400 w (failed (domain (bad_token ctx)), w)
  unfolding bad_request_error
  bad_request w = record {
    error = _;
    raised = refl;
    status_code = refl;
    db = refl;
    limiter = refl;
    outbox = refl;
  }

  bad_request_drawn :
      {A : Type 0} (w : World ctx)
      → Refuses ctx {A = A} 400 w (failed (domain (bad_token ctx)), drawn w)
  unfolding bad_request_error
  bad_request_drawn w = record {
    error = _;
    raised = refl;
    status_code = refl;
    db = refl;
    limiter = refl;
    outbox = refl;
  }

  -- A text that hashes to no token, to a used one or to an expired one gets a 400, and nothing is
  -- written.
  pub reset_password-Refuses :
      (data_in : ResetPasswordDto) (found : Option TokenRow) (w : World ctx)
      → get_by_token_hash ctx (hash_reset_token ctx data_in.token) w ≡ (ok found, w)
      → ¬ Redeemable (ctx.utc w.draws) found
      → Refuses ctx 400 w (reset_password ctx (get_auth_service ctx) data_in w)
  unfolding reset_password
  reset_password-Refuses data_in none w read spent = rw read (bad_request w)
  reset_password-Refuses data_in (some token) w read spent = elim (Option-cases token.used_at) [
    | inr (used, u) ↦ rw (read, u) (bad_request w)
    | inl u ↦ elim (Bool-cases (ltb token.expires_at (ctx.utc w.draws))) [
      | inl late ↦ rw (read, u, late) (bad_request_drawn w)
      | inr early ↦ absurd (spent (u, ground arith))
    ]
  ]
