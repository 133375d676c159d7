-- ===== src/Prisma/Memory/Atomic.antt =====
-- The table in memory writes all or nothing, as `IsAtomic` of `Table` asks.
use pizzaria_api.Prelude.{◌≡◌, refl, List, inl, inr, Bool-cases, Option-cases}
use pizzaria_api.Prisma.Table.{Meaning, IsAtomic}
use pizzaria_api.Prisma.Memory.{memory_table, find, find-some, any}

module _ {Db Row Create Update Cond : Type 0} (m : Meaning Row Create Update Cond)
    (rows : Db → List Row) (put : List Row → Db → Db) (make : Create → Db → Row)
    (change : Update → Row → Row) (rows-put : (rs : List Row) (db : Db) → rows (put rs db) ≡ rs)
    (make-Created : (i : Create) (db : Db) → m.Created i (make i db))
    (change-Updated : (u : Update) (old : Row) → m.Updated u old (change u old)) where
  pub memory_table-IsAtomic : IsAtomic (memory_table m rows put make change) m rows
  unfolding memory_table
  memory_table-IsAtomic = record {
    creates = λ i db. elim (Bool-cases (any (m.clashes i) (rows db))) [
      | inl clash ↦ inl (rw clash refl)
      | inr free ↦ inr (make i db, make-Created i db, rw free (rows-put _ db))
    ];
    updates = λ id u db. elim (Option-cases (find (m.has_id id) (rows db))) [
      | inl absent ↦ inl (rw absent refl)
      | inr (old, e) ↦ inr (
        old,
        change u old,
        (find-some (m.has_id id) (rows db) old e).0,
        change-Updated u old,
        rw e (rows-put _ db),
      )
    ];
    upserts = λ c i db. elim (Option-cases (find (m.holds c) (rows db))) [
      | inl absent ↦ inr (make i db, make-Created i db, rw absent (rows-put _ db))
      | inr (old, e) ↦ inl (rw e refl)
    ];
  }
