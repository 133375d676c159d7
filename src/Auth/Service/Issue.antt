-- ===== src/Auth/Service/Issue.antt =====
-- The tokens that `AuthService` of src/modules/auth/auth_service.py issues, and whom they name.
use pizzaria_api.Prelude.{◌+◌, ◌*◌, ◌≤◌, ◌≡◌, refl, ap, some, inl, inr, Option-cases}
use pizzaria_api.Action.{ok}
use pizzaria_api.Platform.{Laws}
use pizzaria_api.World.{Context, World, microsecond_second}
use pizzaria_api.Security.{
  access_minutes, create_access_token, create_refresh_token, get_current_user,
}
use pizzaria_api.Security.Tokens.{drawn, ok_inv, get_current_user-create_access_token}
use pizzaria_api.Prisma.Rows.{UserRow, RoleRow}
use pizzaria_api.World.Inversion.{failed_ok}
use pizzaria_api.Auth.Schema.{LoginResponseDto}
use pizzaria_api.Auth.Service.{UserIdentity, identity_from, issue_tokens}

module _ (ctx : Context) where
  -- The response carries one access token and one refresh token, made one after the other from
  -- this state on for the user that it names.
  pub record IsIssued (response : LoginResponseDto) (s t : World ctx) : Type 0 where
    pub access :
        (create_access_token ctx (ctx.platform.uuid_text response.user.id) response.user.role s).0
        ≡ ok response.access_token
    pub refresh :
        (create_refresh_token ctx (ctx.platform.uuid_text response.user.id) (drawn s)).0
        ≡ ok response.refresh_token
    pub lifetime : response.expires_in ≡ access_minutes * 60
    pub after : t ≡ drawn (drawn s)

  pub issue_tokens-IsIssued :
      (identity : UserIdentity) (response : LoginResponseDto) (s t : World ctx)
      → issue_tokens ctx identity s ≡ (ok response, t)
      → IsIssued response s t
        × (response.user.id ≡ identity.user_id)
        × (response.user.role ≡ identity.role)
  unfolding issue_tokens create_access_token create_refresh_token
  issue_tokens-IsIssued identity response s t h =
      let e = ok_inv (ap (λ p. p.0) h) in
      let f = ap (λ p. p.1) h in
      rw (← e, ← f)
        (record { access = refl; refresh = refl; lifetime = refl; after = refl }, refl, refl)

  pub identity_from_inv :
      (user : UserRow) (identity : UserIdentity) (s t : World ctx)
      → identity_from ctx user s ≡ (ok identity, t)
      → (role : RoleRow) × (user.role ≡ some role)
        × (ctx.platform.parse_uuid user.id ≡ some identity.user_id)
        × (identity.role ≡ role.name)
        × (t ≡ s)
  unfolding identity_from
  identity_from_inv user identity s t h = elim (Option-cases user.role) [
    | inl absent ↦ absurd (failed_ok (rw absent at h))
    | inr (role, r) ↦ elim (Option-cases (ctx.platform.parse_uuid user.id)) [
      | inl bad ↦ absurd (failed_ok (rw (r, bad) at h))
      | inr (id, i) ↦
          let g = rw (r, i) at h in
          let e = ok_inv (ap (λ p. p.0) g) in
          let f = ap (λ p. p.1) g in rw (← e, ← f, i) (role, r, refl, refl, refl)
    ]
  ]

  -- The access token of an issued pair is, until it expires, the proof of that user and role.
  pub IsIssued-authenticates :
      (response : LoginResponseDto) (s t x : World ctx)
      → Laws ctx.platform
      → IsIssued response s t
      → ctx.utc x.draws + microsecond_second
        ≤ ctx.utc s.draws + access_minutes * 60 * microsecond_second
      → get_current_user ctx (some response.access_token) x
        ≡ (ok (record { user_id = response.user.id; role = response.user.role }), drawn x)
  IsIssued-authenticates response s t x laws issued fresh =
      get_current_user-create_access_token ctx laws response.user.id response.user.role
        response.access_token s x issued.access fresh
