-- ===== src/Prisma/Absence.antt =====
-- Rows of a table that a soft deletion hides: what the laws of the client say of a `where` with an
-- id and a condition on the deletion.
use pizzaria_api.Prelude.{
  ◌≡◌, refl, false, Option, none, some, List, [], ◌∷◌, All, In, here, there, inl, inr, ◌⊎◌,
  Bool-cases,
}
use pizzaria_api.Prelude.Dict.{Str}
use pizzaria_api.Prisma.Table.{
  PrismaError, Reply, returned, raised, Meaning, Delegate, Laws, matches, replace,
}

pub Reply-cases :
    {A : Type 0} (r : Reply A) → ((a : A) × (r ≡ returned a)) ⊎ ((e : PrismaError) × (r ≡ raised e))
Reply-cases (returned a) = inl (a, refl)
Reply-cases (raised e) = inr (e, refl)

-- What the predicate says of a member.
at_member : {A : Type 0} (P : A → Type 0) (x : A) (xs : List A) → All P xs → In x xs → P x
at_member P x [] h m = elim m [ ]
at_member P x (y ∷ xs) (p, h) here = p
at_member P x (y ∷ xs) (p, h) (there m) = at_member P x xs h m

module _ {Db Row Create Update Cond Rest : Type 0} (d : Delegate Db Row Create Update Cond)
    (m : Meaning Row Create Update Cond) (rows : Db → List Row) (rest : Db → Rest)
    (laws : Laws d m rows rest) where
  -- No row of the table meets the conditions.
  abbrev pub Absent : List Cond → Db → Type 0
  Absent conds db = All (λ r. matches m conds r ≡ false) (rows db)

  -- A search for such a row finds none, or the client raises.
  pub find_first-Absent :
      (conds : List Cond) (db : Db)
      → Absent conds db
      → (d.find_first conds db ≡ returned none)
        ⊎ ((e : PrismaError) × (d.find_first conds db ≡ raised e))
  find_first-Absent conds db absent = elim (Reply-cases (d.find_first conds db)) [
    | inl (none, r) ↦ inl r
    | inl (some found, r) ↦
        let (member, matched) = laws.found conds db found r in
        cc (at_member _ found (rows db) absent member, matched)
    | inr (e, r) ↦ inr (e, r)
  ]

  module _ (id : Str) (named alive : Cond)
      (names : (r : Row) → m.has_id id r ≡ m.holds named r) where
    replaced_hides :
        (new : Row) (rs : List Row)
        → m.holds alive new ≡ false
        → All (λ r. matches m (named ∷ alive ∷ []) r ≡ false) (replace m id new rs)
    replaced_hides new [] e = tt
    replaced_hides new (r ∷ rs) e = (
      elim (Bool-cases (m.has_id id r)) [
        | inl same ↦
            rw same
              (elim (Bool-cases (m.holds named new)) [ inl y ↦ rw (y, e) refl | inr n ↦ rw n refl ])
        | inr other ↦ rw (other, ← names r, other) refl
      ],
      replaced_hides new rs e,
    )

    unnamed_hides :
        (rs : List Row)
        → All (λ r. m.has_id id r ≡ false) rs
        → All (λ r. matches m (named ∷ alive ∷ []) r ≡ false) rs
    unnamed_hides [] h = tt
    unnamed_hides (r ∷ rs) (e, h) = (rw (← names r, e) refl, unnamed_hides rs h)

    -- An update that returned and whose new row fails `alive` leaves no row with this id that is
    -- `alive`.
    pub update-Absent :
        (u : Update) (reply : Option Row) (db db' : Db)
        → ((old new : Row) → m.Updated u old new → m.holds alive new ≡ false)
        → d.update id u db ≡ (returned reply, db')
        → Absent (named ∷ alive ∷ []) db'
    update-Absent u none db db' hides h =
        let (absent, same) = laws.update_missing id u db db' h in
        rw same (unnamed_hides (rows db) absent)
    update-Absent u (some new) db db' hides h =
        let (old, _, _, change, after, _) = laws.updated id u db db' new h in
        rw after (replaced_hides new (rows db) (hides old new change))
