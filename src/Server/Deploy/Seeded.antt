-- ===== src/Server/Deploy/Seeded.antt =====
-- What the deploy step of src/infra/seed.py leaves for the start of the server.
use pizzaria_api.Prelude.{◌≡◌, ap, sym, ◌∙◌, true, List, [], ◌∷◌, ◌++◌, All, In, inl, inr}
use mathlib.Core.Path.{subst}
use mathlib.Core.List.{append_assoc}
use pizzaria_api.Prelude.Dict.{Str}
use pizzaria_api.Action.{Action, Result, ok, failed, finally, cleaned, ◌>>◌, >>=_inv}
use pizzaria_api.World.{Context, World, W, Db}
use pizzaria_api.World.Inversion.{failed_ok, execute_inv}
use pizzaria_api.Prisma.Table.{Reply, returned, raised, Laws}
use pizzaria_api.Prisma.Rows.{RoleRow, UnitRow, UnitCond}
use pizzaria_api.Prisma.Meaning.{role_meaning, unit_meaning}
use pizzaria_api.Seed.{
  default_roles, default_unit, names_of, seed_roles, seed_unit, find_missing_roles,
}
use pizzaria_api.Seed.Roles.{Misspelled, seed_roles-HasRole, find_missing_roles-HasRole, In-last}
use pizzaria_api.Logger.{Entries}
use pizzaria_api.Logger.Lines.{Level}
use pizzaria_api.Server.{Process, ConnectionCall, connected, disconnected, inside, log}
use pizzaria_api.Server.Lifespan.{connection}
use pizzaria_api.Server.Deploy.{main, seed_roles_logged, seed_unit_logged}

cleaned_inv :
    {S : Type 0} (r : Result (Unit {0})) (q : Result (Unit {0}) × S) (t : S)
    → cleaned r q ≡ (ok tt, t)
    → (r ≡ ok tt) × (q ≡ (ok tt, t))
cleaned_inv r (ok _, s) t h = (ap (λ p. p.0) h, λ i. (ok tt, (ap (λ p. p.1) h) i))
cleaned_inv r (failed e, s) t h = absurd (failed_ok h)

-- A `try` block with a `finally` that returned.
finally_inv :
    {S : Type 0} (body cleanup : Action S (Unit {0})) (s t : S)
    → finally body cleanup s ≡ (ok tt, t)
    → (u : S) × (body s ≡ (ok tt, u)) × (cleanup u ≡ (ok tt, t))
finally_inv body cleanup s t h =
    let (r, closed) = cleaned_inv (body s).0 (cleanup (body s).1) t h in
    ((body s).1, λ i. (r i, (body s).1), closed)

module _ (ctx : Context) where
  connection_inv :
      (call : ConnectionCall) (reply : Reply (Unit {0})) (p q : Process ctx)
      → connection ctx call reply p ≡ (ok tt, q)
      → record p { calls = p.calls ++ call ∷ [] } ≡ q
  connection_inv call (returned _) p q h = ap (λ r. r.1) h
  connection_inv call (raised e) p q h = absurd (failed_ok h)

  -- A call within the `World` and a line of the log.
  inside-log_inv :
      (m : Action (W ctx) (Unit {0})) (level : Level) (message : Str) (extra : Entries)
      (p q : Process ctx)
      → (inside ctx m >> log ctx level message extra) p ≡ (ok tt, q)
      → (m p.world ≡ (ok tt, q.world)) × (q.calls ≡ p.calls)
  unfolding log
  inside-log_inv m level message extra p q h =
      let (_, s, e, f) = >>=_inv (inside ctx m) (λ _. log ctx level message extra) p h in
      (
        λ i. (ap (λ r. r.0) e i, (ap (λ r. r.1.world) e ∙ ap (λ r. r.1.world) f) i),
        sym (ap (λ r. r.1.calls) e ∙ ap (λ r. r.1.calls) f),
      )

  -- Beside the laws of the two tables: the roles are among what the table of units leaves alone,
  -- and the collation takes every text for itself.
  module _ {R S : Type 0} (roles : Db ctx → List RoleRow) (units : Db ctx → List UnitRow)
      (besides_roles : Db ctx → R) (besides_units : Db ctx → S)
      (role_laws : Laws ctx.client.role (role_meaning ctx.client.same) roles besides_roles)
      (unit_laws : Laws ctx.client.unit (unit_meaning ctx.client.same) units besides_units)
      (apart : (a b : Db ctx) → besides_units a ≡ besides_units b → roles a ≡ roles b)
      (reflexive : (a : Str) → ctx.client.same a a ≡ true) where
    -- A unit of the table has the CNPJ of the default unit, as the database compares texts.
    abbrev pub HasDefaultUnit : Db ctx → Type 0
    HasDefaultUnit db =
        (u : UnitRow) × In u (units db) × (ctx.client.same u.cnpj default_unit.cnpj ≡ true)

    seed_unit-HasDefaultUnit :
        (w t : World ctx)
        → seed_unit ctx w ≡ (ok tt, t)
        → HasDefaultUnit t.db × (roles t.db ≡ roles w.db)
    unfolding seed_unit
    seed_unit-HasDefaultUnit w t h =
        let upsert = ctx.client.unit.upsert (UnitCond.cnpj_is default_unit.cnpj) default_unit in
        let (row, stored, _) = execute_inv ctx upsert w t h in
        elim (unit_laws.upserted (UnitCond.cnpj_is default_unit.cnpj) _ w.db t.db row stored) [
          | inl (member, held, same) ↦ ((row, rw same member, held), ap roles same)
          | inr (_, created, after, others) ↦ (
            (
              row,
              rw after (In-last row (units w.db)),
              ap (λ f. ctx.client.same f.cnpj default_unit.cnpj) created.fields
                  ∙ reflexive default_unit.cnpj,
            ),
            apart t.db w.db others,
          )
        ]

    -- The default roles, as `HasRole` of a table with these rows.
    abbrev Roles : List RoleRow → Type 0
    Roles rs =
        All (λ name. (r : RoleRow) × In r rs × (ctx.client.same r.name name ≡ true))
          (names_of default_roles)

    -- What the body of the `try` leaves.
    seeded :
        (p q : Process ctx)
        → (seed_roles_logged ctx >> seed_unit_logged ctx) p ≡ (ok tt, q)
        → Roles (roles q.world.db) × HasDefaultUnit q.world.db × (q.calls ≡ p.calls)
    seeded p q h =
        let (_, s, e, f) = >>=_inv (seed_roles_logged ctx) (λ _. seed_unit_logged ctx) p h in
        let (first, same_calls) = inside-log_inv (seed_roles ctx) _ _ _ p s e in
        let (second, still) = inside-log_inv (seed_unit ctx) _ _ _ s q f in
        let (unit, kept) = seed_unit-HasDefaultUnit s.world q.world second in
        (
          subst Roles (sym kept) (
              seed_roles-HasRole ctx roles besides_roles role_laws reflexive p.world s.world first),
          unit,
          still ∙ same_calls,
        )

    -- Once the deploy step has returned, the default unit is in the table, the connection was
    -- opened and then closed, and the check at the start of the server on the state as it is then
    -- reports only roles that stand in the table in another spelling.
    pub main-find_missing_roles :
        (on_connect on_disconnect : Reply (Unit {0})) (p q : Process ctx) (missing : List Str)
        (u : World ctx)
        → main ctx on_connect on_disconnect p ≡ (ok tt, q)
        → find_missing_roles ctx q.world ≡ (ok missing, u)
        → All (Misspelled ctx roles besides_roles role_laws reflexive q.world.db) missing
          × HasDefaultUnit q.world.db
          × (q.calls ≡ p.calls ++ connected ∷ disconnected ∷ [])
    unfolding main
    main-find_missing_roles on_connect on_disconnect p q missing u h g =
        let body = seed_roles_logged ctx >> seed_unit_logged ctx in
        let (_, s, e, f) =
          >>=_inv (connection ctx connected on_connect)
            (λ _. finally body (connection ctx disconnected on_disconnect)) p h in
        let (t, ran, closed) = finally_inv body (connection ctx disconnected on_disconnect) s q f in
        let opened = connection_inv connected on_connect p s e in
        let done = connection_inv disconnected on_disconnect t q closed in
        let (there_, unit, same_calls) = seeded s t ran in
        let db : t.world.db ≡ q.world.db = ap (λ r. r.world.db) done in
        (
          find_missing_roles-HasRole ctx roles besides_roles role_laws reflexive q.world u missing
              (subst (λ d. Roles (roles d)) db there_) g,
          subst HasDefaultUnit db unit,
          sym (ap (λ r. r.calls) done)
              ∙ ap (λ cs. cs ++ disconnected ∷ []) (same_calls ∙ sym (ap (λ r. r.calls) opened))
              ∙ append_assoc p.calls (connected ∷ []) (disconnected ∷ []),
        )
