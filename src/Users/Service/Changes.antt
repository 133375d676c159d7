-- ===== src/Users/Service/Changes.antt =====
-- What changing an account by src/modules/users/user_service.py writes.
use pizzaria_api.Prelude.{◌≡◌, refl, ap, sym, ◌∙◌, ℕ, true, Option, none, some, List, [], ◌∷◌, In}
use mathlib.Core.Path.{subst}
use pizzaria_api.Prelude.Dict.{Str}
use pizzaria_api.Text.{codes}
use pizzaria_api.Errors.{DomainError, conflict_error, internal_error}
use pizzaria_api.Action.{ok, ◌>>=◌, >>=_inv, or_raise}
use pizzaria_api.Platform
use pizzaria_api.Validation.{Given, kwarg, Follows}
use pizzaria_api.World.{Context, World, Db, execute, settle_unique}
use pizzaria_api.World.Inversion.{
  failed_ok, ok_state, query_inv, or_raise_inv, or_unhandled_inv, settle_unique_inv,
}
use pizzaria_api.Prisma.Table.{returned, Laws, replace}
use pizzaria_api.Prisma.Rows.{UserRow, RoleRow, UserUpdateInput, UserCond}
use pizzaria_api.Prisma.Meaning.{user_meaning, UserUpdated, Connected, or_old, or_old-Follows}
use pizzaria_api.Security.{hash_password, verify_password}
use pizzaria_api.Users.Schema.{UserRole, role_value}
use pizzaria_api.Users.Schema.{UpdateUserRequest, UserResponse}
use pizzaria_api.Users.Repository
use pizzaria_api.Users.Repository.{get_user_repository, user_not_found}
use pizzaria_api.Users.Service.{update, to_response, validate_response, hash_if_given, role_name_of}

abbrev pub email_in_use : DomainError
email_in_use = conflict_error (codes "Email already in use")

module _ (ctx : Context) where
  -- What a hash to write has to do with the password that a request gives.
  abbrev Hashes : Given Str → Option Str → Type 0
  Hashes Given.unset hashed = hashed ≡ none
  Hashes Given.null hashed = ⊥
  Hashes (Given.given password) hashed =
      (hash : Str) × (hashed ≡ some hash) × (verify_password ctx password hash ≡ true)

  hash_if_given_inv :
      (password : Given Str) (hashed : Option Str) (s t : World ctx)
      → Platform.Laws ctx.platform
      → hash_if_given ctx password s ≡ (ok hashed, t)
      → (t.db ≡ s.db) × Hashes password hashed
  unfolding hash_password verify_password
  hash_if_given_inv Given.unset hashed s t platform h =
      let (p, q) = ok_state h in (ap (λ u. u.db) (sym q), sym p)
  hash_if_given_inv Given.null hashed s t platform h = absurd (failed_ok h)
  hash_if_given_inv (Given.given password) hashed s t platform h =
      let (p, q) = ok_state h in
      (ap (λ u. u.db) (sym q), (_, sym p, platform.verify_hash (ctx.random s.draws) password))

  -- The stored hash after a change: as before without a password in the request, and else one that
  -- the password verifies against; a password set to `null` changes nothing, since it raises.
  abbrev pub NewPassword : Given Str → UserRow → UserRow → Type 0
  NewPassword Given.unset old new = new.hashed_password ≡ old.hashed_password
  NewPassword Given.null old new = ⊥
  NewPassword (Given.given password) old new =
      verify_password ctx password new.hashed_password ≡ true

  -- The role after a change: as before without a role in the request, and else the one of the name
  -- that the request gives.
  abbrev pub NewRole : Given UserRole → Option RoleRow → Option RoleRow → Type 0
  NewRole Given.unset old new = new ≡ old
  NewRole Given.null old new = new ≡ old
  NewRole (Given.given role) old new =
      (row : RoleRow) × (new ≡ some row) × (ctx.client.same row.name (role_value role) ≡ true)

  Connected-NewRole :
      (role : Given UserRole) (old new : Option RoleRow)
      → Connected ctx.client.same (role_name_of ctx role) old new
      → NewRole role old new
  Connected-NewRole Given.unset old new c = c
  Connected-NewRole Given.null old new c = c
  Connected-NewRole (Given.given role) old new c = c

  hashed-NewPassword :
      (password : Given Str) (hashed : Option Str) (old new : UserRow)
      → Hashes password hashed
      → new.hashed_password ≡ or_old hashed old.hashed_password
      → NewPassword password old new
  hashed-NewPassword Given.unset hashed old new h e = rw (e, h) refl
  hashed-NewPassword Given.null hashed old new h e = absurd h
  hashed-NewPassword (Given.given password) hashed old new (hash, h, verifies) e =
      rw (e, h) verifies

  module _ {Rest : Type 0} (rows : Db ctx → List UserRow) (rest : Db ctx → Rest)
      (laws : Laws ctx.client.user (user_meaning ctx.client.same) rows rest) where
    abbrev pub replaced : ℕ → UserRow → List UserRow → List UserRow
    replaced user_id = replace (user_meaning ctx.client.same) (ctx.platform.uuid_text user_id)

    abbrev by_id : ℕ → List UserCond
    by_id user_id = UserCond.id_is (ctx.platform.uuid_text user_id) ∷ UserCond.not_deleted ∷ []

    Repository-update_inv :
        (user_id : ℕ) (changes : UserUpdateInput) (new : UserRow) (w t : World ctx)
        → Repository.update ctx user_id changes w ≡ (ok new, t)
        → (old : UserRow) × In old (rows w.db)
          × UserUpdated ctx.client.same changes old new
          × (rows t.db ≡ replaced user_id new (rows w.db))
          × (rest t.db ≡ rest w.db)
    unfolding Repository.update
    Repository-update_inv user_id changes new w t h =
        let write = ctx.client.user.update (ctx.platform.uuid_text user_id) changes in
        let (reply, s1, e1, f1) =
          >>=_inv (execute ctx write)
            (λ reply. settle_unique ctx email_in_use reply >>= λ row.
              or_raise row (user_not_found ctx user_id))
            w h in
        let (row, s2, e2, f2) =
          >>=_inv (settle_unique ctx email_in_use reply)
            (λ row. or_raise row (user_not_found ctx user_id)) s1 f1 in
        let (made, q2) = settle_unique_inv ctx email_in_use reply row s1 s2 e2 in
        let (there_, q3) = or_raise_inv row (user_not_found ctx user_id) new s2 t f2 in
        let (answer, final) = ok_state e1 in
        let done : t.db ≡ s1.db = ap (λ u. u.db) (q3 ∙ q2) in
        let stored : write w.db ≡ (returned (some new), t.db) =
          λ i. ((answer ∙ made ∙ ap returned there_) i, (ap (λ u. u.db) final ∙ sym done) i) in
        let (old, member, _, change, after, others) = laws.updated _ changes w.db t.db new stored in
        (old, member, change, after, others)

    -- A change that returned writes one account with the id: the row keeps its id, state and
    -- deletion, its address and name are the request's where it gives one and else as before, the
    -- password follows the request likewise, and the role is the one that the request names or as
    -- before. The response shows the row; the other rows and the other tables are as before.
    pub update_changes :
        (user_id : ℕ) (request : UpdateUserRequest) (response : UserResponse) (w t : World ctx)
        → Platform.Laws ctx.platform
        → update ctx (get_user_repository ctx) user_id request w ≡ (ok response, t)
        → (old : UserRow) × (new : UserRow) × In old (rows w.db)
          × (rows t.db ≡ replaced user_id new (rows w.db))
          × Follows request.email old.email new.email
          × Follows request.name old.name new.name
          × NewPassword request.password old new
          × NewRole request.role old.role new.role
          × ((new.id ≡ old.id)
              × (new.is_active ≡ old.is_active)
              × (new.deleted_at ≡ old.deleted_at))
          × ((role : RoleRow) × (new.role ≡ some role)
              × (validate_response ctx new role ≡ some response))
          × (rest t.db ≡ rest w.db)
    unfolding update Repository.get_by_id to_response
    update_changes user_id request response w t platform h =
        let (found, s1, e1, f1) = >>=_inv (Repository.get_by_id ctx user_id) _ w h in
        let (_, s2, e2, f2) = >>=_inv (or_raise found (user_not_found ctx user_id)) _ s1 f1 in
        let (hashed, s3, e3, f3) = >>=_inv (hash_if_given ctx request.password) _ s2 f2 in
        let changes : UserUpdateInput = record {
          email = kwarg request.email;
          name = kwarg request.name;
          hashed_password = hashed;
          role_name = role_name_of ctx request.role;
          deleted_at = none;
        } in
        let (new, s4, e4, f4) = >>=_inv (Repository.update ctx user_id changes) _ s3 f3 in
        let (role, s5, e5, f5) = >>=_inv (or_raise new.role internal_error) _ s4 f4 in
        let (_, q1) = query_inv ctx (ctx.client.user.find_first (by_id user_id)) found w s1 e1 in
        let (_, q2) = or_raise_inv found (user_not_found ctx user_id) _ s1 s2 e2 in
        let (q3, hashes) = hash_if_given_inv request.password hashed s2 s3 platform e3 in
        let (has_role, q5) = or_raise_inv new.role internal_error role s4 s5 e5 in
        let (shows, q6) = or_unhandled_inv ctx (validate_response ctx new role) response s5 t f5 in
        let (old, member, change, after, others) =
          Repository-update_inv user_id changes new s3 s4 e4 in
        let start : s3.db ≡ w.db = q3 ∙ ap (λ u. u.db) (q2 ∙ q1) in
        let done : t.db ≡ s4.db = ap (λ u. u.db) (q6 ∙ q5) in
        (
          old,
          new,
          subst (λ db. In old (rows db)) start member,
          ap rows done ∙ after ∙ ap (λ db. replaced user_id new (rows db)) start,
          or_old-Follows request.email _ _ change.email,
          or_old-Follows request.name _ _ change.name,
          hashed-NewPassword request.password hashed old new hashes change.password,
          Connected-NewRole request.role old.role new.role change.role,
          (change.id, change.active, change.alive),
          (role, has_role, shows),
          ap rest done ∙ others ∙ ap rest start,
        )
