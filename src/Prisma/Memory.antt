-- ===== src/Prisma/Memory.antt =====
-- A client over lists in memory, which meets the laws of `Table`: it shows that they can hold
-- together, and the examples run on it.
pub mod Tables
pub mod Atomic
use mathlib.Core.List.Perm
use pizzaria_api.Prelude.{
  ℕ, ◌≡◌, ◌≢◌, refl, sym, Bool, true, false, not, Option, none, some, List, [], ◌∷◌, ◌++◌, filter,
  take, drop, length, All, In, here, there, arith, if◌then◌else◌, Option-cases, inl, inr,
  Bool-cases, ◌⊎◌, ◌||◌,
}
use mathlib.Core.Path.{ap, subst}
use pizzaria_api.Prelude.Dict.{Str}
use pizzaria_api.Prisma.Table.{
  PrismaError, unique_violation, Reply, returned, raised, Delegate, Meaning, matches, replace, Laws,
}

module _ {A : Type 0} where
  -- The first item that passes the test.
  unfoldable pub find : (A → Bool) → List A → Option A
  find p [] = none
  find p (x ∷ xs) = if p x then some x else find p xs

  unfoldable pub any : (A → Bool) → List A → Bool
  any p [] = false
  any p (x ∷ xs) = p x || any p xs

  pub find-some : (p : A → Bool) (xs : List A) (x : A) → find p xs ≡ some x → In x xs × (p x ≡ true)
  unfolding find
  find-some p [] x h = cc
  find-some p (y ∷ ys) x h = elim (Bool-cases (p y)) [
    | inl passes ↦
        let e : y ≡ x = ground arith in
        (subst (λ z. In z (y ∷ ys)) e here, subst (λ z. p z ≡ true) e passes)
    | inr fails ↦ let (m, q) = find-some p ys x (rw (fails, if◌then◌else◌) at h) in (there m, q)
  ]

  find-none : (p : A → Bool) (xs : List A) → find p xs ≡ none → All (λ x. p x ≡ false) xs
  unfolding find
  find-none p [] h = tt
  find-none p (x ∷ xs) h = ground (arith, find-none p xs)

  any-false : (p : A → Bool) (xs : List A) → any p xs ≡ false → All (λ x. p x ≡ false) xs
  unfolding any
  any-false p [] h = tt
  any-false p (x ∷ xs) h = ground (arith, any-false p xs)

module _ {A S : Type 0} where
  returned_inv :
      {a b : A} {s t : S}
      → ◌≡◌ {A = Reply A × S} (returned a, s) (returned b, t)
      → (a ≡ b) × (s ≡ t)
  returned_inv h = (cc (ap (λ p. p.0) h), ap (λ p. p.1) h)

  not_raised :
      {e : PrismaError} {b : A} {s t : S} → ◌≡◌ {A = Reply A × S} (raised e, s) (returned b, t) → ⊥
  not_raised h = cc (ap (λ p. p.0) h)

  not_returned :
      {e : PrismaError} {b : A} {s t : S} → ◌≡◌ {A = Reply A × S} (returned b, s) (raised e, t) → ⊥
  not_returned h = cc (ap (λ p. p.0) h)

reply_inv : {A : Type 0} {a b : A} → returned a ≡ returned b → a ≡ b
reply_inv h = cc

some_inv : {A : Type 0} {a b : A} → some a ≡ some b → a ≡ b
some_inv h = cc

module _ {Db Row Create Update Cond : Type 0} (m : Meaning Row Create Update Cond)
    (rows : Db → List Row) (put : List Row → Db → Db) (make : Create → Db → Row)
    (change : Update → Row → Row) where
  abbrev add : Create → Db → Reply Row × Db
  add i db = (returned (make i db), put (rows db ++ make i db ∷ []) db)

  abbrev write_back : Str → Update → Db → Option Row → Reply (Option Row) × Db
  write_back id u db none = (returned none, db)
  write_back id u db (some old) =
      (returned (some (change u old)), put (replace m id (change u old) (rows db)) db)

  abbrev keep_or_add : Create → Db → Option Row → Reply Row × Db
  keep_or_add i db none = add i db
  keep_or_add i db (some r) = (returned r, db)

  unfoldable pub memory_table : Delegate Db Row Create Update Cond
  unfolding find any
  memory_table = record {
    find_first = λ w db. returned (find (matches m w) (rows db));
    find_many = λ w skip n db. returned (take n (drop skip (filter (matches m w) (rows db))));
    find_all = λ w db. returned (filter (matches m w) (rows db));
    count = λ w db. returned (length (filter (matches m w) (rows db)));
    create =
        λ i db. if any (m.clashes i) (rows db) then (raised unique_violation, db) else add i db;
    update = λ id u db. write_back id u db (find (m.has_id id) (rows db));
    delete_many = λ w db. (
      returned (length (filter (matches m w) (rows db))),
      put (filter (λ r. not (matches m w r)) (rows db)) db,
    );
    upsert = λ c i db. keep_or_add i db (find (m.holds c) (rows db));
  }

  module _ {Rest : Type 0} (rest : Db → Rest)
      (rows-put : (rs : List Row) (db : Db) → rows (put rs db) ≡ rs)
      (rest-put : (rs : List Row) (db : Db) → rest (put rs db) ≡ rest db)
      (make-Created : (i : Create) (db : Db) → m.Created i (make i db))
      (change-Updated : (u : Update) (old : Row) → m.Updated u old (change u old)) where
    found_lem :
        (w : List Cond) (db : Db) (r : Row)
        → memory_table.find_first w db ≡ returned (some r)
        → In r (rows db) × (matches m w r ≡ true)
    unfolding memory_table
    found_lem w db r h = find-some (matches m w) (rows db) r (cc h)

    missing_lem :
        (w : List Cond) (db : Db)
        → memory_table.find_first w db ≡ returned none
        → All (λ r. matches m w r ≡ false) (rows db)
    unfolding memory_table
    missing_lem w db h = find-none (matches m w) (rows db) (cc h)

    create_lem :
        (i : Create) (db db' : Db) (r : Row)
        → memory_table.create i db ≡ (returned r, db')
        → (make i db ≡ r)
          × (put (rows db ++ make i db ∷ []) db ≡ db')
          × (any (m.clashes i) (rows db) ≡ false)
    unfolding memory_table
    create_lem i db db' r h = elim (Bool-cases (any (m.clashes i) (rows db))) [
      | inl clash ↦ absurd (not_raised (rw (clash, if◌then◌else◌) at h))
      | inr free ↦ let (e, f) = returned_inv (rw (free, if◌then◌else◌) at h) in (e, f, free)
    ]

    update_lem :
        (id : Str) (u : Update) (db db' : Db) (r : Row)
        → memory_table.update id u db ≡ (returned (some r), db')
        → (old : Row) × In old (rows db)
          × (m.has_id id old ≡ true)
          × (change u old ≡ r)
          × (put (replace m id (change u old) (rows db)) db ≡ db')
    unfolding memory_table
    update_lem id u db db' r h = elim (Option-cases (find (m.has_id id) (rows db))) [
      | inl absent ↦ cc ((returned_inv (rw (absent, write_back) at h)).0)
      | inr (old, e) ↦
          let (p, q) = returned_inv (rw (e, write_back) at h) in
          let (member, same) = find-some (m.has_id id) (rows db) old e in
          (old, member, same, some_inv p, q)
    ]

    create_raised_lem :
        (i : Create) (db db' : Db) (e : PrismaError)
        → memory_table.create i db ≡ (raised e, db')
        → db' ≡ db
    unfolding memory_table
    create_raised_lem i db db' e h = elim (Bool-cases (any (m.clashes i) (rows db))) [
      | inl clash ↦ sym (ap (λ p. p.1) (rw (clash, if◌then◌else◌) at h))
      | inr free ↦ absurd (not_returned (rw (free, if◌then◌else◌) at h))
    ]

    update_missing_lem :
        (id : Str) (u : Update) (db db' : Db)
        → memory_table.update id u db ≡ (returned none, db')
        → All (λ r. m.has_id id r ≡ false) (rows db) × (db' ≡ db)
    unfolding memory_table
    update_missing_lem id u db db' h = elim (Option-cases (find (m.has_id id) (rows db))) [
      | inl absent ↦ (
        find-none (m.has_id id) (rows db) absent,
        sym (ap (λ p. p.1) (rw (absent, write_back) at h)),
      )
      | inr (old, e) ↦ cc ((returned_inv (rw (e, write_back) at h)).0)
    ]

    update_raised_lem :
        (id : Str) (u : Update) (db db' : Db) (e : PrismaError)
        → memory_table.update id u db ≡ (raised e, db')
        → db' ≡ db
    unfolding memory_table
    update_raised_lem id u db db' e h = elim (Option-cases (find (m.has_id id) (rows db))) [
      | inl absent ↦ absurd (not_returned (rw (absent, write_back) at h))
      | inr (old, f) ↦ absurd (not_returned (rw (f, write_back) at h))
    ]

    upsert_lem :
        (c : Cond) (i : Create) (db db' : Db) (r : Row)
        → memory_table.upsert c i db ≡ (returned r, db')
        → (In r (rows db) × (m.holds c r ≡ true) × (db' ≡ db))
          ⊎ (All (λ x. m.holds c x ≡ false) (rows db)
              × m.Created i r
              × (rows db' ≡ rows db ++ r ∷ [])
              × (rest db' ≡ rest db))
    unfolding memory_table
    upsert_lem c i db db' r h = elim (Option-cases (find (m.holds c) (rows db))) [
      | inl absent ↦
          let (e, f) = returned_inv (rw (absent, keep_or_add) at h) in
          inr (
            find-none (m.holds c) (rows db) absent,
            rw (← e) (make-Created i db),
            rw (← f, ← e) (rows-put _ db),
            rw (← f) (rest-put _ db),
          )
      | inr (old, found) ↦
          let (e, f) = returned_inv (rw (found, keep_or_add) at h) in
          let (member, holds) = find-some (m.holds c) (rows db) old found in
          inl (rw (← e) member, rw (← e) holds, sym f)
    ]

    -- The table in memory meets every law.
    pub memory-Laws : Laws memory_table m rows rest
    unfolding memory_table
    memory-Laws = record {
      found = found_lem;
      missing = missing_lem;
      many = λ w skip n db rs h. (_, Perm.refl _, sym (reply_inv h));
      found_all = λ w db rs h. sym (reply_inv h);
      counted = λ w db n h. sym (reply_inv h);
      created = λ i db db' r h.
          let (e, f, free) = create_lem i db db' r h in
          (
            rw (← f, ← e) (rows-put _ db),
            rw (← e) (make-Created i db),
            any-false (m.clashes i) (rows db) free,
            rw (← f) (rest-put _ db),
          );
      create_raised = λ i db db' e h _. create_raised_lem i db db' e h;
      updated = λ id u db db' r h.
          let (old, member, same, e, f) = update_lem id u db db' r h in
          (
            old,
            member,
            same,
            rw (← e) (change-Updated u old),
            rw (← f, ← e) (rows-put _ db),
            rw (← f) (rest-put _ db),
          );
      update_missing = update_missing_lem;
      update_raised = λ id u db db' e h _. update_raised_lem id u db db' e h;
      deleted = λ w db db' n h.
          let (_, f) = returned_inv h in (rw (← f) (rows-put _ db), rw (← f) (rest-put _ db));
      upserted = upsert_lem;
    }
