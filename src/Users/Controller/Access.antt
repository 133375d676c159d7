-- ===== src/Users/Controller/Access.antt =====
-- Who may call the endpoints of src/modules/users/controllers/v1/user_controller.py.
use pizzaria_api.Prelude.{ℕ, ◌≡◌, ◌≢◌, refl, false, Option, inl, inr, ◌⊎◌, Bool-cases, ◌==◌, ==_iff}
use pizzaria_api.Prelude.Dict.{Str, str_eq, str_eq_sound, str_eq_refl}
use pizzaria_api.Action.{Action, Result, ok, ◌>>=◌, ◌>>◌, >>=_ok}
use pizzaria_api.World.{Context, World}
use pizzaria_api.Validation.{Given, accept}
use pizzaria_api.Requests.{validated_page}
use pizzaria_api.Security.{AuthenticatedUser, admin_role, get_current_user}
use pizzaria_api.Security.Tokens.{drawn}
use pizzaria_api.Security.Guards.{
  IsAuthentic, Refuses, Refuses-resume, Refuses-anonymous, forbidden, get_current_user_outcome,
  AdminOnly, require_admin-AdminOnly,
}
use pizzaria_api.Users.Schema.{
  UserRole, role_value, UserBody, UpdateUserRequest, update_user_request,
}
use pizzaria_api.Users.Repository.{get_user_repository}
use pizzaria_api.Users.Service
use pizzaria_api.Users.Controller.{
  require_admin_or_self, get_user, list_users, update_user, delete_user,
}

-- An administrator, or the user that the path names.
pub data AdminOrSelf (user_id : ℕ) (user : AuthenticatedUser) : Type 0 where
  administrator : user.role ≡ admin_role → AdminOrSelf user_id user
  themselves : user.user_id ≡ user_id → AdminOrSelf user_id user

stranger :
    (user_id : ℕ) (user : AuthenticatedUser)
    → str_eq user.role admin_role ≡ false
    → (user.user_id == user_id) ≡ false
    → ¬ AdminOrSelf user_id user
stranger user_id user t s (administrator e) = cc (t, e, str_eq_refl admin_role)
stranger user_id user t s (themselves e) = cc (s, (==_iff _ _).1 e)

module _ (ctx : Context) where
  -- `require_admin_or_self` lets through the authentic administrators and the user of the path, and
  -- gives a token that proves nobody a 401 and any other user a 403, with nothing changed.
  pub require_admin_or_self_outcome :
      (user_id : ℕ) (credentials : Option Str) (w : World ctx)
      → ((user : AuthenticatedUser) × IsAuthentic ctx credentials w user
          × AdminOrSelf user_id user
          × (require_admin_or_self ctx user_id credentials w ≡ (ok user, drawn w)))
        ⊎ (((user : AuthenticatedUser) → ¬ IsAuthentic ctx credentials w user)
            × Refuses ctx 401 w (require_admin_or_self ctx user_id credentials w))
        ⊎ ((user : AuthenticatedUser) × IsAuthentic ctx credentials w user
            × (¬ AdminOrSelf user_id user)
            × Refuses ctx 403 w (require_admin_or_self ctx user_id credentials w))
  unfolding require_admin_or_self role_value
  require_admin_or_self_outcome user_id credentials w =
      elim (get_current_user_outcome ctx credentials w) [
        | inr r ↦ inr (inl (Refuses-anonymous ctx credentials w r, Refuses-resume ctx _ 401 w _ r))
        | inl (user, authentic, e) ↦ rw e (elim (Bool-cases (str_eq user.role admin_role)) [
          | inl t ↦ rw t (inl (user, authentic, administrator (str_eq_sound _ _ t), refl))
          | inr t ↦ elim (Bool-cases (user.user_id == user_id)) [
            | inl s ↦ rw (t, s) (inl (user, authentic, themselves ((==_iff _ _).0 s), refl))
            | inr s ↦
                rw (t, s)
                  (inr (inr (user, authentic, stranger user_id user t s, forbidden ctx _ w)))
          ]
        ])
      ]

  -- What an endpoint behind `require_admin_or_self` does.
  abbrev pub OwnerOnly :
      {A : Type 0}
      → ℕ
      → Option Str
      → World ctx
      → (AuthenticatedUser → Result A × World ctx)
      → Result A × World ctx
      → Type 0
  OwnerOnly user_id credentials w rest p =
      ((user : AuthenticatedUser) × IsAuthentic ctx credentials w user
        × AdminOrSelf user_id user
        × (p ≡ rest user))
      ⊎ (((user : AuthenticatedUser) → ¬ IsAuthentic ctx credentials w user) × Refuses ctx 401 w p)
      ⊎ ((user : AuthenticatedUser) × IsAuthentic ctx credentials w user
          × (¬ AdminOrSelf user_id user)
          × Refuses ctx 403 w p)

  require_admin_or_self-OwnerOnly :
      {A : Type 0} (user_id : ℕ) (credentials : Option Str)
      (rest : AuthenticatedUser → Action (World ctx) A) (w : World ctx)
      → OwnerOnly user_id credentials w
          (λ user. rest user (drawn w))
          ((require_admin_or_self ctx user_id credentials >>= rest) w)
  require_admin_or_self-OwnerOnly user_id credentials rest w =
      elim (require_admin_or_self_outcome user_id credentials w) [
        | inl (user, authentic, owner, e) ↦ inl (
          user,
          authentic,
          owner,
          >>=_ok (require_admin_or_self ctx user_id credentials) rest w e,
        )
        | inr (inl (nobody, r)) ↦ inr (inl (nobody, Refuses-resume ctx _ 401 w _ r))
        | inr (inr (user, authentic, other, r)) ↦
            inr (inr (user, authentic, other, Refuses-resume ctx _ 403 w _ r))
      ]

  -- Reading and deleting a user call the service exactly for an authentic access token of an
  -- administrator or of that user, and listing the users, once the page is in bounds, for one of an
  -- administrator. A token that proves nobody gets a 401 and one of another user a 403, and then
  -- the database, the counters and the outbox are as before.
  pub users-access :
      (credentials : Option Str) (user_id page page_size : ℕ) (role : Option UserRole)
      (w : World ctx)
      → OwnerOnly user_id credentials w
          (λ _. Service.get_by_id ctx (get_user_repository ctx) user_id (drawn w))
          (get_user ctx credentials user_id w)
        × OwnerOnly user_id credentials w
            (λ _. Service.delete ctx (get_user_repository ctx) user_id (drawn w))
            (delete_user ctx credentials user_id w)
        × AdminOnly ctx credentials w
            ((validated_page ctx page page_size
                >> Service.list_paginated ctx (get_user_repository ctx) page page_size role)
              (drawn w))
            (list_users ctx credentials page page_size role w)
  unfolding get_user delete_user list_users
  users-access credentials user_id page page_size role w = (
    require_admin_or_self-OwnerOnly user_id credentials _ w,
    require_admin_or_self-OwnerOnly user_id credentials _ w,
    require_admin-AdminOnly ctx credentials _ w,
  )

  -- An authenticated user who is no administrator and sends a valid body with a role, even the one
  -- that they have, gets a 403, and nothing is written.
  pub update_user_role_change :
      (credentials : Option Str) (user_id : ℕ) (body : UserBody) (request : UpdateUserRequest)
      (role : UserRole) (user : AuthenticatedUser) (w : World ctx)
      → get_current_user ctx credentials w ≡ (ok user, drawn w)
      → user.role ≢ admin_role
      → update_user_request ctx.platform body ≡ accept request
      → request.role ≡ Given.given role
      → Refuses ctx 403 w (update_user ctx credentials user_id body w)
  unfolding update_user require_admin_or_self role_value
  update_user_role_change credentials user_id body request role user w e plain valid wants =
      let t : str_eq user.role admin_role ≡ false =
        elim (Bool-cases (str_eq user.role admin_role)) [
          | inl s ↦ absurd (plain (str_eq_sound _ _ s))
          | inr s ↦ s
        ] in
      elim (Bool-cases (user.user_id == user_id)) [
        | inl s ↦ rw (e, t, s, valid, wants, t) (forbidden ctx _ w)
        | inr s ↦ rw (e, t, s) (forbidden ctx _ w)
      ]
