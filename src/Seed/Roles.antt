-- ===== src/Seed/Roles.antt =====
-- The seeding of src/infra/seed.py against the check of src/infra/database.py.
use pizzaria_api.Prelude.{
  ◌≡◌, ◌≢◌, ap, sym, ◌∙◌, Bool, true, false, List, [], ◌∷◌, ◌++◌, map, filter, All, In, here, there,
  inl, inr, arith, Bool-cases,
}
use mathlib.Core.Path.{subst}
use pizzaria_api.Prelude.Dict.{Str, str_eq_refl, contains}
use pizzaria_api.Action.{ok, pure, ◌>>◌, >>=_inv}
use pizzaria_api.World.{Context, World, Db, query, execute, settle}
use pizzaria_api.World.Inversion.{ok_state, query_inv, settle_inv}
use pizzaria_api.Prisma.Table.{returned, Laws, matches}
use pizzaria_api.Prisma.Rows.{RoleRow, RoleCond}
use pizzaria_api.Prisma.Meaning.{role_meaning, any_same}
use pizzaria_api.Seed.{
  default_roles, names_of, missing_from, seed_each, seed_roles, find_missing_roles,
}

module _ {A : Type 0} where
  In-append : (x : A) (xs ys : List A) → In x xs → In x (xs ++ ys)
  In-append x (y ∷ xs) ys here = here
  In-append x (y ∷ xs) ys (there m) = there (In-append x xs ys m)
  In-append x [] ys m = elim m [ ]

  pub In-last : (x : A) (xs : List A) → In x (xs ++ x ∷ [])
  In-last x [] = here
  In-last x (y ∷ xs) = there (In-last x xs)

  In-filter : (p : A → Bool) (x : A) (xs : List A) → In x xs → p x ≡ true → In x (filter p xs)
  In-filter p x [] m t = elim m [ ]
  In-filter p x (y ∷ xs) here t = rw t here
  In-filter p x (y ∷ xs) (there m) t = elim (Bool-cases (p y)) [
    | inl yes_ ↦ rw yes_ (there (In-filter p x xs m t))
    | inr no_ ↦ rw no_ (In-filter p x xs m t)
  ]

contains-name :
    (name : Str) (r : RoleRow) (rs : List RoleRow)
    → In r rs
    → r.name ≡ name
    → contains name (map (λ r. r.name) rs) ≡ true
unfolding contains
contains-name name r [] m e = elim m [ ]
contains-name name r (_ ∷ rs) here e = rw (e, str_eq_refl name)
contains-name name r (q ∷ rs) (there m) e = ground (arith, contains-name name r rs m e)

true-not-false : true ≡ false → ⊥
true-not-false e = cc

module _ (ctx : Context) {Rest : Type 0} (rows : Db ctx → List RoleRow) (rest : Db ctx → Rest)
    (laws : Laws ctx.client.role (role_meaning ctx.client.same) rows rest)
    (reflexive : (a : Str) → ctx.client.same a a ≡ true) where
  -- A row of the table has this name, as the database compares names.
  abbrev pub HasRole : Db ctx → Str → Type 0
  HasRole db name = (r : RoleRow) × In r (rows db) × (ctx.client.same r.name name ≡ true)

  record Seeds (name : Str) (db db' : Db ctx) : Type 0 where
    has : HasRole db' name
    keeps : (other : Str) → HasRole db other → HasRole db' other

  upsert-Seeds :
      (name description : Str) (db db' : Db ctx) (r : RoleRow)
      → ctx.client.role.upsert
          (RoleCond.name_is name)
          (record { name = name; description = description })
          db
        ≡ (returned r, db')
      → Seeds name db db'
  upsert-Seeds name description db db' r h =
      elim (laws.upserted (RoleCond.name_is name) _ db db' r h) [
        | inl (member, held, same) ↦ record {
          has = rw same (r, member, held);
          keeps = λ other k. rw same k;
        }
        | inr (_, created, after, _) ↦ record {
          has = (
            r,
            rw after (In-last r (rows db)),
            ap (λ n. ctx.client.same n name) created.name ∙ reflexive name,
          );
          keeps = λ other (q, m, e). (q, rw after (In-append q (rows db) (r ∷ []) m), e);
        }
      ]

  step_inv :
      (name description : Str) (roles : List (Str × Str)) (w t : World ctx)
      → seed_each ctx ((name, description) ∷ roles) w ≡ (ok tt, t)
      → (s : World ctx) × Seeds name w.db s.db × (seed_each ctx roles s ≡ (ok tt, t))
  unfolding seed_each
  step_inv name description roles w t h =
      let upsert =
        ctx.client.role.upsert (RoleCond.name_is name)
          (record { name = name; description = description }) in
      let (reply, s, e, f) =
        >>=_inv (execute ctx upsert) (λ reply. settle ctx reply >> seed_each ctx roles) w h in
      let (row, x, g, k) = >>=_inv (settle ctx reply) (λ _. seed_each ctx roles) s f in
      let (made, q) = settle_inv ctx reply row s x g in
      let (answer, final) = ok_state e in
      let stored : upsert w.db ≡ (returned row, s.db) = λ i. ((answer ∙ made) i, (final i).db) in
      (
        s,
        upsert-Seeds name description w.db s.db row stored,
        subst (λ u. seed_each ctx roles u ≡ (ok tt, t)) q k,
      )

  seed_each_keeps :
      (roles : List (Str × Str)) (other : Str) (w t : World ctx)
      → seed_each ctx roles w ≡ (ok tt, t)
      → HasRole w.db other
      → HasRole t.db other
  unfolding seed_each
  seed_each_keeps [] other w t h k = subst (λ u. HasRole u.db other) ((ok_state h).1) k
  seed_each_keeps ((name, description) ∷ roles) other w t h k =
      let (s, seeds, later) = step_inv name description roles w t h in
      seed_each_keeps roles other s t later (seeds.keeps other k)

  seed_each-HasRole :
      (roles : List (Str × Str)) (w t : World ctx)
      → seed_each ctx roles w ≡ (ok tt, t)
      → All (HasRole t.db) (names_of roles)
  seed_each-HasRole [] w t h = tt
  seed_each-HasRole ((name, description) ∷ roles) w t h =
      let (s, seeds, later) = step_inv name description roles w t h in
      (seed_each_keeps roles name s t later seeds.has, seed_each-HasRole roles s t later)

  any_same-In :
      (name spelled : Str) (names : List Str)
      → In name names
      → ctx.client.same spelled name ≡ true
      → any_same ctx.client.same names spelled ≡ true
  any_same-In name spelled [] m e = elim m [ ]
  any_same-In name spelled (_ ∷ names) here e = rw e
  any_same-In name spelled (n ∷ names) (there m) e =
      ground (arith, any_same-In name spelled names m e)

  -- The rows of the expected names that the check finds.
  abbrev found_roles : List Str → Db ctx → List RoleRow
  found_roles names db =
      filter (matches (role_meaning ctx.client.same) (RoleCond.name_in names ∷ [])) (rows db)

  -- A row has the name, but in another spelling.
  abbrev pub Misspelled : Db ctx → Str → Type 0
  Misspelled db name =
      (r : RoleRow) × In r (rows db) × (ctx.client.same r.name name ≡ true) × (r.name ≢ name)

  missing_from-Misspelled :
      (names expected : List Str) (db : Db ctx)
      → ((n : Str) → In n expected → In n names)
      → All (HasRole db) expected
      → All (Misspelled db) (missing_from (map (λ r. r.name) (found_roles names db)) expected)
  unfolding missing_from
  missing_from-Misspelled names [] db sub h = tt
  missing_from-Misspelled names (n ∷ expected) db sub ((r, member, e), h) =
      let existing = map (λ r. r.name) (found_roles names db) in
      let listed = any_same-In n r.name names (sub n here) e in
      let found =
        In-filter (matches (role_meaning ctx.client.same) (RoleCond.name_in names ∷ [])) r (rows db)
          member (rw listed) in
      let later = missing_from-Misspelled names expected db (λ m k. sub m (there k)) h in
      elim (Bool-cases (contains n existing)) [
        | inl known ↦ rw known later
        | inr unknown ↦ rw unknown (
          (
            r,
            member,
            e,
            λ same_name.
                true-not-false
                  (sym (contains-name n r (found_roles names db) found same_name) ∙ unknown),
          ),
          later,
        )
      ]

  -- When every default role is there, the check at the start reports only other spellings.
  pub find_missing_roles-HasRole :
      (t u : World ctx) (missing : List Str)
      → All (HasRole t.db) (names_of default_roles)
      → find_missing_roles ctx t ≡ (ok missing, u)
      → All (Misspelled t.db) missing
  unfolding find_missing_roles
  find_missing_roles-HasRole t u missing there_ g =
      let names = names_of default_roles in
      let (existing, s, e, f) =
        >>=_inv (query ctx (ctx.client.role.find_all (RoleCond.name_in names ∷ [])))
          (λ existing. pure (missing_from (map (λ r. r.name) existing) names)) t g in
      let (read, _) =
        query_inv ctx (ctx.client.role.find_all (RoleCond.name_in names ∷ [])) existing t s e in
      let (answer, _) = ok_state f in
      let shown = laws.found_all (RoleCond.name_in names ∷ []) t.db existing read in
      let reported : missing_from (map (λ r. r.name) (found_roles names t.db)) names ≡ missing =
        ap (λ rs. missing_from (map (λ r. r.name) rs) names) (sym shown) ∙ answer in
      subst (λ ns. All (Misspelled t.db) ns) reported
        (missing_from-Misspelled names names t.db (λ n m. m) there_)

  pub seed_roles-HasRole :
      (w t : World ctx)
      → seed_roles ctx w ≡ (ok tt, t)
      → All (HasRole t.db) (names_of default_roles)
  unfolding seed_roles
  seed_roles-HasRole w t h = seed_each-HasRole default_roles w t h
