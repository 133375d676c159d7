-- ===== src/Users/Service/Writes.antt =====
-- What creating a user by src/modules/users/user_service.py writes.
use pizzaria_api.Prelude.{◌≡◌, ap, ◌∙◌, true, false, none, List, [], ◌∷◌, ◌++◌, All}
use pizzaria_api.Prelude.Dict.{Str}
use pizzaria_api.Text.{codes}
use pizzaria_api.Errors.{DomainError, conflict_error, internal_error}
use pizzaria_api.Action.{ok, >>=_inv, or_raise}
use pizzaria_api.Platform
use pizzaria_api.World.{Context, World, Db, execute, settle_unique}
use pizzaria_api.World.Inversion.{ok_state, or_raise_inv, or_unhandled_inv, settle_unique_inv}
use pizzaria_api.Prisma.Table.{returned, Laws}
use pizzaria_api.Prisma.Rows.{UserRow, UserCreateInput}
use pizzaria_api.Prisma.Meaning.{user_meaning}
use pizzaria_api.Security.{hash_password, verify_password}
use pizzaria_api.Users.Schema.{CreateUserRequest, UserResponse, role_value}
use pizzaria_api.Users.Repository
use pizzaria_api.Users.Repository.{get_user_repository}
use pizzaria_api.Users.Service.{create, to_response, validate_response}

abbrev pub registered : Str → DomainError
registered email = conflict_error (codes "User with email " ++ email ++ codes " already exists")

module _ (ctx : Context) {Rest : Type 0} (rows : Db ctx → List UserRow) (rest : Db ctx → Rest)
    (laws : Laws ctx.client.user (user_meaning ctx.client.same) rows rest) where
  -- A creation that returned added one active row at the end of the table, with the address and the
  -- name of the request, whose address no row had; the password of the request verifies against
  -- what is stored, and no other table changed.
  pub create_registers :
      (request : CreateUserRequest) (response : UserResponse) (w t : World ctx)
      → Platform.Laws ctx.platform
      → create ctx (get_user_repository ctx) request w ≡ (ok response, t)
      → (row : UserRow) × (rows t.db ≡ rows w.db ++ row ∷ [])
        × (row.email ≡ request.email)
        × (row.name ≡ request.name)
        × (row.is_active ≡ true)
        × (row.deleted_at ≡ none)
        × (verify_password ctx request.password row.hashed_password ≡ true)
        × All (λ r. ctx.client.same r.email request.email ≡ false) (rows w.db)
        × (rest t.db ≡ rest w.db)
  unfolding create hash_password verify_password Repository.create to_response
  create_registers request response w t platform h =
      let hashed = ctx.platform.password_hash (ctx.random w.draws) request.password in
      let input : UserCreateInput = record {
        email = request.email;
        name = request.name;
        hashed_password = hashed;
        role_name = role_value request.role;
      } in
      let (row, s, e, f) =
        >>=_inv (Repository.create ctx request.email request.name hashed request.role) _ _ h in
      let (reply, x, g, k) =
        >>=_inv (execute ctx (ctx.client.user.create input))
          (settle_unique ctx (registered request.email)) _ e in
      let (role, y, m, n) = >>=_inv (or_raise row.role internal_error) _ s f in
      let (_, q1) = or_raise_inv row.role internal_error role s y m in
      let (_, q2) = or_unhandled_inv ctx (validate_response ctx row role) response y t n in
      let (made, q3) = settle_unique_inv ctx (registered request.email) reply row x s k in
      let (answer, final) = ok_state g in
      let stored : ctx.client.user.create input w.db ≡ (returned row, x.db) =
        λ i. ((answer ∙ made) i, (final i).db) in
      let (after, created, free, others) = laws.created input w.db x.db row stored in
      let done : t ≡ x = q2 ∙ q1 ∙ q3 in
      (
        row,
        ap (λ u. rows u.db) done ∙ after,
        created.email,
        created.name,
        created.active,
        created.alive,
        ap (ctx.platform.password_verify request.password) created.password
            ∙ platform.verify_hash (ctx.random w.draws) request.password,
        free,
        ap (λ u. rest u.db) done ∙ others,
      )
