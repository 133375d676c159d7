-- ===== src/Auth/Service/Refresh.antt =====
-- `refresh_token` of src/modules/auth/auth_service.py on the tokens that the program makes.
use pizzaria_api.Prelude.{◌∙◌}
use pizzaria_api.Prelude.{
  ◌+◌, ◌*◌, ◌≤◌, ◌≡◌, refl, ℕ, Option, Option-cases, none, some, true, false, inl, inr, Bool-cases,
}
use pizzaria_api.Prelude.Dict.{Str, lookup, str_eq}
use pizzaria_api.Errors.{unauthorized_error, forbidden_error, internal_error, domain, unhandled}
use pizzaria_api.Action.{Result, ok, failed, ◌>>=◌}
use pizzaria_api.Platform.{Laws}
use pizzaria_api.World.{Context, World, microsecond_second}
use pizzaria_api.Security.{
  access_minutes, refresh_days, create_access_token, create_refresh_token, text_claim, has_type,
}
use pizzaria_api.Security.Tokens.{drawn, decode_access, decode_refresh}
use pizzaria_api.Security.Guards.{Refuses, refused_drawn}
use pizzaria_api.Prisma.Rows.{UserRow, RoleRow}
use pizzaria_api.Users.Repository.{get_by_id}
use pizzaria_api.Auth.Schema.{LoginResponseDto}
use pizzaria_api.Auth.Dependencies.{get_auth_service}
use pizzaria_api.Auth.Service.{
  identity_from, issue_tokens, refresh_token, invalid_token_message, inactive_user_message,
}
use pizzaria_api.Auth.Service.Issue.{IsIssued}

module _ (ctx : Context) where
  -- Until it expires, an access token in place of a refresh token gets a 401, and nothing is
  -- written.
  pub refresh_token-create_access_token :
      (sub role token : Str) (w v : World ctx)
      → Laws ctx.platform
      → (create_access_token ctx sub role w).0 ≡ ok token
      → ctx.utc v.draws + microsecond_second
        ≤ ctx.utc w.draws + access_minutes * 60 * microsecond_second
      → Refuses ctx 401 v (refresh_token ctx (get_auth_service ctx) token v)
  unfolding refresh_token has_type text_claim lookup str_eq
  refresh_token-create_access_token sub role token w v laws made fresh =
      rw (decode_access ctx laws sub role token w v made fresh) (refused_drawn ctx _ v)

  -- What an account gets: a 403 if it is deactivated, and else tokens that are issued for its id,
  -- its name and the name of its role; a row without a role or with an id that is no UUID, which
  -- the schema rules out, gets a 500.
  pub data RenewedFor (user : UserRow) (x : World ctx) (p : Result LoginResponseDto × World ctx)
      : Type 0 where
    inactive :
        user.is_active ≡ false
        → p ≡ (failed (domain (forbidden_error inactive_user_message)), x)
        → RenewedFor user x p
    renewed :
        (role : RoleRow) (id : ℕ) (response : LoginResponseDto) (t : World ctx)
        → user.is_active ≡ true
        → user.role ≡ some role
        → ctx.platform.parse_uuid user.id ≡ some id
        → p ≡ (ok response, t)
        → response.user ≡ record { id = id; name = user.name; role = role.name }
        → IsIssued ctx response x t
        → RenewedFor user x p
    without_role :
        user.is_active ≡ true
        → user.role ≡ none
        → p ≡ (failed (domain internal_error), x)
        → RenewedFor user x p
    without_id :
        user.is_active ≡ true
        → ctx.platform.parse_uuid user.id ≡ none
        → p ≡ (failed unhandled, x)
        → RenewedFor user x p

  -- The answer by what the table of users says at the moment of the refresh.
  abbrev pub Renewed : Option UserRow → World ctx → Result LoginResponseDto × World ctx → Type 0
  Renewed none x p = p ≡ (failed (domain (unauthorized_error invalid_token_message)), x)
  Renewed (some user) x p = RenewedFor user x p

  -- What `refresh_token` does with an active account.
  active-RenewedFor :
      (user : UserRow) (x : World ctx) (p : Result LoginResponseDto × World ctx)
      → user.is_active ≡ true
      → p ≡ (identity_from ctx user >>= issue_tokens ctx) x
      → RenewedFor user x p
  unfolding identity_from issue_tokens create_access_token create_refresh_token
  active-RenewedFor user x p on e = elim (Option-cases user.role) [
    | inl absent ↦ without_role on absent (e ∙ rw absent refl)
    | inr (role, r) ↦ elim (Option-cases (ctx.platform.parse_uuid user.id)) [
      | inl bad ↦ without_id on bad (e ∙ rw (r, bad) refl)
      | inr (id, i) ↦
          renewed role id _ _ on r i (e ∙ rw (r, i) refl) refl
            (record { access = refl; refresh = refl; lifetime = refl; after = refl })
    ]
  ]

  -- Until it expires, the refresh token of an issued pair gives new tokens, which are issued for
  -- the id, the name and the role of the account as it stands now: a deleted account gets a 401 and
  -- a deactivated one a 403, and an account without a role or with an id that is no UUID a 500.
  pub refresh_token-IsIssued :
      (response : LoginResponseDto) (s t v : World ctx) (found : Option UserRow)
      → Laws ctx.platform
      → IsIssued ctx response s t
      → ctx.utc v.draws + microsecond_second
        ≤ ctx.utc (drawn s).draws + refresh_days * 86400 * microsecond_second
      → get_by_id ctx response.user.id (drawn v) ≡ (ok found, drawn v)
      → Renewed found (drawn v) (refresh_token ctx (get_auth_service ctx) response.refresh_token v)
  unfolding refresh_token has_type text_claim lookup str_eq
  refresh_token-IsIssued response s t v none laws issued fresh read = rw (
    decode_refresh ctx laws (ctx.platform.uuid_text response.user.id) response.refresh_token
        (drawn s) v issued.refresh fresh,
    laws.uuid_round_trip response.user.id,
    read,
  )
  refresh_token-IsIssued response s t v (some user) laws issued fresh read =
      let decoded =
        decode_refresh ctx laws (ctx.platform.uuid_text response.user.id) response.refresh_token
          (drawn s) v issued.refresh fresh in
      let known = laws.uuid_round_trip response.user.id in
      elim (Bool-cases user.is_active) [
        | inl a ↦ active-RenewedFor user (drawn v) _ a (rw (decoded, known, read, a) refl)
        | inr a ↦ inactive a (rw (decoded, known, read, a) refl)
      ]
