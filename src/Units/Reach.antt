-- ===== src/Units/Reach.antt =====
-- What the table of units can come to hold, through any sequence of calls of the endpoints of
-- src/modules/units/controllers/v1/unit_controller.py and runs of `seed_unit` of src/infra/seed.py,
-- whether they return or raise.
pub mod Services
pub mod Invariant
use pizzaria_api.Prelude.{
  ℕ, ◌≡◌, refl, ap, sym, ◌∙◌, Bool, true, false, Option, none, some, List, [], ◌∷◌, ◌++◌, All,
  All-append, In, All-In, ◌⊎◌, inl, inr, Bool-cases, if◌then◌else◌, map,
}
use mathlib.Core.Path.{subst}
use pizzaria_api.Prelude.Dict.{Str}
use pizzaria_api.Action.{Action, Result, or_raise, ◌>>=◌, ◌>>◌}
use pizzaria_api.Action.Keeps.{
  Preserves, Preserves-pure, Preserves-raise, Preserves-raise_if, Preserves-or_raise,
  Preserves-then,
}
use pizzaria_api.Security.Tokens.{drawn}
use pizzaria_api.Security.Guards.{AdminOnly}
use pizzaria_api.World.{
  utc_now, query, Context, World, W, Db, execute, settle, settle_unique, or_unhandled,
}
use pizzaria_api.World.Keeps.{
  KeepsDb, KeepsDb-settle, KeepsDb-settle_unique, KeepsDb-query, KeepsDb-or_unhandled,
  KeepsDb-utc_now, KeepsDb-execute, KeepsDb-validated,
}
use pizzaria_api.Prisma.Table.{Reply, IsAtomic, replace}
use pizzaria_api.Prisma.Rows.{UnitRow, UnitFields, UnitUpdateInput, UnitCond}
use pizzaria_api.Prisma.Meaning.{unit_meaning, UnitCreated, UnitUpdated, or_old}
use pizzaria_api.Units.Cnpj.Laws.{IsCnpj}
use pizzaria_api.Units.Schema.Accepted.{
  GivesCnpj, create_unit_request-IsCnpj, update_unit_request-GivesCnpj,
}
use pizzaria_api.Units.Repository
use pizzaria_api.Units.Repository.{by_id, unit_not_found, no_change, listed}
use pizzaria_api.Pagination.{skip_of}
use pizzaria_api.Units.Service.Writes.{taken, clash}
use pizzaria_api.Units.Service

-- The CNPJ of a row is in normal form.
abbrev pub HasCnpj : UnitRow → Type 0
HasCnpj r = IsCnpj r.cnpj

or_old-IsCnpj :
    (given : Option Str) (old : Str) → GivesCnpj given → IsCnpj old → IsCnpj (or_old given old)
or_old-IsCnpj none old g h = h
or_old-IsCnpj (some v) old g h = g

module _ (ctx : Context) (rows : Db ctx → List UnitRow)
    (atomic : IsAtomic ctx.client.unit (unit_meaning ctx.client.same) rows) where
  abbrev pub AllCnpj : Db ctx → Type 0
  AllCnpj db = All HasCnpj (rows db)

  replace-HasCnpj :
      (id : Str) (new : UnitRow) (rs : List UnitRow)
      → HasCnpj new
      → All HasCnpj rs
      → All HasCnpj (replace (unit_meaning ctx.client.same) id new rs)
  replace-HasCnpj id new [] n h = tt
  replace-HasCnpj id new (r ∷ rs) n (p, h) = elim (Bool-cases (ctx.client.same r.id id)) [
    | inl t ↦ rw t (n, replace-HasCnpj id new rs n h)
    | inr t ↦ rw t (p, replace-HasCnpj id new rs n h)
  ]

  pub added-AllCnpj :
      (fields : UnitFields) (db db' : Db ctx)
      → IsCnpj fields.cnpj
      → AllCnpj db
      → (rows db' ≡ rows db)
        ⊎ ((r : UnitRow) × UnitCreated fields r × (rows db' ≡ rows db ++ r ∷ []))
      → AllCnpj db'
  added-AllCnpj fields db db' c h (inl e) = rw e h
  added-AllCnpj fields db db' c h (inr (r, made, e)) =
      rw e (
        All-append HasCnpj (rows db) (r ∷ []) h
          (subst (λ f. IsCnpj f.cnpj) (sym made.fields) c, tt))

  create-AllCnpj :
      (fields : UnitFields) (db : Db ctx)
      → IsCnpj fields.cnpj
      → AllCnpj db
      → AllCnpj (ctx.client.unit.create fields db).1
  create-AllCnpj fields db c h = added-AllCnpj fields db _ c h (atomic.creates fields db)

  update-AllCnpj :
      (id : Str) (u : UnitUpdateInput) (db : Db ctx)
      → GivesCnpj u.cnpj
      → AllCnpj db
      → AllCnpj (ctx.client.unit.update id u db).1
  update-AllCnpj id u db g h = elim (atomic.updates id u db) [
    | inl e ↦ rw e h
    | inr (old, new, member, change, e) ↦ rw e (
        replace-HasCnpj id new (rows db)
          (subst (λ f. IsCnpj f.cnpj) (sym change.fields)
            (or_old-IsCnpj u.cnpj old.cnpj g (All-In HasCnpj h member)))
          h)
  ]

  abbrev pub Safe : {A : Type 0} → Action (W ctx) A → Type 0
  Safe m = KeepsDb ctx AllCnpj m

  -- What an administrator's endpoint leaves: the state of the rest of it, or the one from before.
  pub guarded-AllCnpj :
      {A : Type 0} (credentials : Option Str) (rest : Action (W ctx) A) (w : World ctx)
      (out : Result A × World ctx)
      → Safe rest
      → AllCnpj w.db
      → AdminOnly ctx credentials w (rest (drawn w)) out
      → AllCnpj out.1.db
  guarded-AllCnpj credentials rest w out safe h (inl (user, authentic, role, e)) =
      rw e (safe.at (drawn w) h)
  guarded-AllCnpj credentials rest w out safe h (inr (inl (_, r))) = rw r.db h
  guarded-AllCnpj credentials rest w out safe h (inr (inr (_, _, _, r))) = rw r.db h

  pub Repository-create-Safe :
      (fields : UnitFields) → IsCnpj fields.cnpj → Safe (Repository.create ctx fields)
  unfolding Repository.create
  Repository-create-Safe fields c =
      Preserves-then (execute ctx (ctx.client.unit.create fields)) _
        (KeepsDb-execute ctx AllCnpj (ctx.client.unit.create fields)
          (λ db. create-AllCnpj fields db c))
        (KeepsDb-settle_unique ctx AllCnpj (taken fields))

  -- A change of a row that is there.
  change-Safe :
      {A : Type 0} (unit_id : ℕ) (u : UnitUpdateInput)
      (f : Reply (Option UnitRow) → Action (W ctx) A)
      → GivesCnpj u.cnpj
      → ((reply : Reply (Option UnitRow)) → Safe (f reply))
      → Safe (execute ctx (ctx.client.unit.update (ctx.platform.uuid_text unit_id) u) >>= f)
  change-Safe unit_id u f g k =
      Preserves-then (execute ctx (ctx.client.unit.update (ctx.platform.uuid_text unit_id) u)) f
        (KeepsDb-execute ctx AllCnpj _
          (λ db. update-AllCnpj (ctx.platform.uuid_text unit_id) u db g))
        k

  -- What runs once a row with the id was found.
  found-Safe :
      {A : Type 0} (unit_id : ℕ) (m : Action (W ctx) A)
      → Safe m
      → Safe (
          query ctx (ctx.client.unit.find_first (by_id ctx unit_id)) >>= λ existing.
          or_raise existing (unit_not_found ctx unit_id) >> m)
  found-Safe unit_id m k =
      Preserves-then (query ctx (ctx.client.unit.find_first (by_id ctx unit_id))) _
        (KeepsDb-query ctx AllCnpj _)
        (λ existing.
          Preserves-then (or_raise existing (unit_not_found ctx unit_id)) _
            (Preserves-or_raise existing (unit_not_found ctx unit_id)) (λ _. k))

  pub Repository-update-Safe :
      (unit_id : ℕ) (u : UnitUpdateInput)
      → GivesCnpj u.cnpj
      → Safe (Repository.update ctx unit_id u)
  unfolding Repository.update
  Repository-update-Safe unit_id u g = found-Safe unit_id _ (
      change-Safe unit_id u _ g (λ reply.
        Preserves-then (settle_unique ctx clash reply) _
          (KeepsDb-settle_unique ctx AllCnpj clash reply)
          (λ row. Preserves-or_raise row (unit_not_found ctx unit_id))))

  pub Repository-soft_delete-Safe : (unit_id : ℕ) → Safe (Repository.soft_delete ctx unit_id)
  unfolding Repository.soft_delete
  Repository-soft_delete-Safe unit_id = found-Safe unit_id _ (
      Preserves-then (utc_now ctx) _ (KeepsDb-utc_now ctx AllCnpj) (λ now.
        change-Safe unit_id (record no_change { deleted_at = some now }) _ tt
          (λ reply.
            Preserves-then (settle ctx reply) _ (KeepsDb-settle ctx AllCnpj reply)
              (λ _. Preserves-pure tt))))

  pub Repository-get_by_id-Safe : (unit_id : ℕ) → Safe (Repository.get_by_id ctx unit_id)
  unfolding Repository.get_by_id
  Repository-get_by_id-Safe unit_id = KeepsDb-query ctx AllCnpj _

  pub Repository-list_paginated-Safe :
      (page page_size : ℕ) (all : Bool) → Safe (Repository.list_paginated ctx page page_size all)
  unfolding Repository.list_paginated
  Repository-list_paginated-Safe page page_size all =
      Preserves-then
        (query ctx (ctx.client.unit.find_many (listed all) (skip_of page page_size) page_size)) _
        (KeepsDb-query ctx AllCnpj _)
        (λ items.
          Preserves-then (query ctx (ctx.client.unit.count (listed all))) _
            (KeepsDb-query ctx AllCnpj _) (λ total. Preserves-pure (items, total)))
