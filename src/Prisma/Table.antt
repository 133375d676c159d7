-- ===== src/Prisma/Table.antt =====
-- One table of the Prisma client: the calls, and what their documentation says that they do.
use pizzaria_api.Prelude.{
  ℕ, ◌≡◌, ◌≢◌, Bool, true, false, not, Option, none, some, List, [], ◌∷◌, ◌++◌, map, filter, all,
  take, drop, length, All, In, ◌⊎◌, if◌then◌else◌,
}
use mathlib.Core.List.{Perm}
use pizzaria_api.Prelude.Dict.{Str}

pub data PrismaError : Type 0 where
  unique_violation record_not_found other_error : PrismaError

-- What a call returns or raises.
pub data Reply (A : Type 0) : Type 0 where
  returned : A → Reply A
  raised : PrismaError → Reply A

-- A `where` is a list of conditions that all hold; the order is `createdAt` ascending, the only one
-- that the program asks for. An upsert has an empty update.
pub record Delegate (Db Row Create Update Cond : Type 0) : Type 0 where
  pub find_first : List Cond → Db → Reply (Option Row)
  pub find_many : List Cond → ℕ → ℕ → Db → Reply (List Row)
  pub find_all : List Cond → Db → Reply (List Row)
  pub count : List Cond → Db → Reply ℕ
  pub create : Create → Db → Reply Row × Db
  pub update : Str → Update → Db → Reply (Option Row) × Db
  pub delete_many : List Cond → Db → Reply ℕ × Db
  pub upsert : Cond → Create → Db → Reply Row × Db

-- What the schema says of one table.
pub record Meaning (Row Create Update Cond : Type 0) : Type 1 where
  pub holds : Cond → Row → Bool
  -- whether the row is the one with this id
  pub has_id : Str → Row → Bool
  -- whether a new row would break a unique index because of this one
  pub clashes : Create → Row → Bool
  -- what a new row, and a row after an update, has of the input
  pub Created : Create → Row → Type 0
  pub Updated : Update → Row → Row → Type 0

module _ {Row Create Update Cond : Type 0} (m : Meaning Row Create Update Cond) where
  abbrev pub matches : List Cond → Row → Bool
  matches w r = all (λ c. m.holds c r) w

  abbrev pub replace : Str → Row → List Row → List Row
  replace id new = map (λ r. if m.has_id id r then new else r)

-- `rows` are the table's rows, in the order in which they were added; `rest` is what the other
-- tables hold. A page is cut from the rows in the order asked for, which leaves the order of rows
-- of the same instant to the database, so that only the rows of the whole list are certain.
pub record Laws {Db Row Create Update Cond Rest : Type 0} (d : Delegate Db Row Create Update Cond)
    (m : Meaning Row Create Update Cond) (rows : Db → List Row) (rest : Db → Rest) : Type 0 where
  pub found :
      (w : List Cond) (db : Db) (r : Row)
      → d.find_first w db ≡ returned (some r)
      → In r (rows db) × (matches m w r ≡ true)
  pub missing :
      (w : List Cond) (db : Db)
      → d.find_first w db ≡ returned none
      → All (λ r. matches m w r ≡ false) (rows db)
  pub many :
      (w : List Cond) (skip n : ℕ) (db : Db) (rs : List Row)
      → d.find_many w skip n db ≡ returned rs
      → (order : List Row) × Perm order (filter (matches m w) (rows db))
        × (rs ≡ take n (drop skip order))
  pub found_all :
      (w : List Cond) (db : Db) (rs : List Row)
      → d.find_all w db ≡ returned rs
      → rs ≡ filter (matches m w) (rows db)
  pub counted :
      (w : List Cond) (db : Db) (n : ℕ)
      → d.count w db ≡ returned n
      → n ≡ length (filter (matches m w) (rows db))
  pub created :
      (i : Create) (db db' : Db) (r : Row)
      → d.create i db ≡ (returned r, db')
      → (rows db' ≡ rows db ++ r ∷ [])
        × m.Created i r
        × All (λ x. m.clashes i x ≡ false) (rows db)
        × (rest db' ≡ rest db)
  pub create_raised :
      (i : Create) (db db' : Db) (e : PrismaError)
      → d.create i db ≡ (raised e, db')
      → e ≢ other_error
      → db' ≡ db
  pub updated :
      (id : Str) (u : Update) (db db' : Db) (r : Row)
      → d.update id u db ≡ (returned (some r), db')
      → (old : Row) × In old (rows db)
        × (m.has_id id old ≡ true)
        × m.Updated u old r
        × (rows db' ≡ replace m id r (rows db))
        × (rest db' ≡ rest db)
  pub update_missing :
      (id : Str) (u : Update) (db db' : Db)
      → d.update id u db ≡ (returned none, db')
      → All (λ r. m.has_id id r ≡ false) (rows db) × (db' ≡ db)
  pub update_raised :
      (id : Str) (u : Update) (db db' : Db) (e : PrismaError)
      → d.update id u db ≡ (raised e, db')
      → e ≢ other_error
      → db' ≡ db
  pub deleted :
      (w : List Cond) (db db' : Db) (n : ℕ)
      → d.delete_many w db ≡ (returned n, db')
      → (rows db' ≡ filter (λ r. not (matches m w r)) (rows db)) × (rest db' ≡ rest db)
  pub upserted :
      (c : Cond) (i : Create) (db db' : Db) (r : Row)
      → d.upsert c i db ≡ (returned r, db')
      → (In r (rows db) × (m.holds c r ≡ true) × (db' ≡ db))
        ⊎ (All (λ x. m.holds c x ≡ false) (rows db)
            × m.Created i r
            × (rows db' ≡ rows db ++ r ∷ [])
            × (rest db' ≡ rest db))

-- A call that writes is one statement of the database: also when it raises, it has its whole effect
-- on the table or none.
pub record IsAtomic {Db Row Create Update Cond : Type 0} (d : Delegate Db Row Create Update Cond)
    (m : Meaning Row Create Update Cond) (rows : Db → List Row) : Type 0 where
  pub creates :
      (i : Create) (db : Db)
      → (rows (d.create i db).1 ≡ rows db)
        ⊎ ((r : Row) × m.Created i r × (rows (d.create i db).1 ≡ rows db ++ r ∷ []))
  pub updates :
      (id : Str) (u : Update) (db : Db)
      → (rows (d.update id u db).1 ≡ rows db)
        ⊎ ((old : Row) × (new : Row) × In old (rows db)
            × m.Updated u old new
            × (rows (d.update id u db).1 ≡ replace m id new (rows db)))
  pub upserts :
      (c : Cond) (i : Create) (db : Db)
      → (rows (d.upsert c i db).1 ≡ rows db)
        ⊎ ((r : Row) × m.Created i r × (rows (d.upsert c i db).1 ≡ rows db ++ r ∷ []))
