-- ===== src/Units/Service/Listing.antt =====
-- The pages of units that src/modules/units/unit_service.py answers with, against the table.
use mathlib.Core.Path.{subst}
use mathlib.Core.List.{Perm}
use pizzaria_api.Prelude.{
  ◌-◌, ◌*◌, take, drop, ◌||◌, true, false, arith, [], ◌∷◌, ℕ, ◌≡◌, refl, ap, sym, ◌∙◌, Bool, none,
  some, List, filter, length, inl, inr, ◌&&◌, leb, Bool-cases, if◌then◌else◌,
}
use pizzaria_api.Action.{ok, >>=_inv}
use pizzaria_api.Pagination.{PaginationMeta, build, total_pages_of, skip_of}
use pizzaria_api.World.{Context, World, Db, query, or_unhandled}
use pizzaria_api.World.Inversion.{ok_state, query_inv, or_unhandled_inv}
use pizzaria_api.Prisma.Table.{Laws, matches}
use pizzaria_api.Prisma.Rows.{UnitRow}
use pizzaria_api.Prisma.Meaning.{unit_meaning, is_none}
use pizzaria_api.Units.Schema.{UnitListResponse}
use pizzaria_api.Units.Repository
use pizzaria_api.Units.Repository.{listed}
use pizzaria_api.Units.Repository.{get_unit_repository}
use pizzaria_api.Units.Service.{to_responses, list_paginated}

some_inv : {A : Type 0} {a b : A} → some a ≡ some b → a ≡ b
some_inv h = cc

none-some : {A : Type 0} {a : A} → none ≡ some a → ⊥
none-some h = cc

build_inv :
    (page page_size total : ℕ) (meta : PaginationMeta)
    → build page page_size total ≡ some meta
    → (meta.page ≡ page)
      × (meta.page_size ≡ page_size)
      × (meta.total ≡ total)
      × (meta.total_pages ≡ total_pages_of page_size total)
unfolding build
build_inv page page_size total meta h =
    elim (Bool-cases (leb 1 page && leb 1 page_size && leb page_size 100)) [
      | inl fits ↦
          let e = sym (some_inv (rw (fits, if◌then◌else◌) at h)) in rw e (refl, refl, refl, refl)
      | inr wrong ↦ absurd (none-some (rw (wrong, if◌then◌else◌) at h))
    ]

filter_cong :
    {A : Type 0} (p q : A → Bool) (xs : List A) → ((x : A) → p x ≡ q x) → filter p xs ≡ filter q xs
filter_cong p q [] h = refl
filter_cong p q (x ∷ xs) h = rw (h x, filter_cong p q xs h) refl

module _ (ctx : Context) {Rest : Type 0} (rows : Db ctx → List UnitRow) (rest : Db ctx → Rest)
    (laws : Laws ctx.client.unit (unit_meaning ctx.client.same) rows rest) where
  -- The rows that a listing may show: not deleted, and active unless inactive ones are asked for.
  abbrev pub shown : Bool → Db ctx → List UnitRow
  shown include_inactive db =
      filter (λ r. is_none r.deleted_at && (include_inactive || r.is_active)) (rows db)

  listed-shown :
      (include_inactive : Bool) (rs : List UnitRow)
      → filter (matches (unit_meaning ctx.client.same) (listed include_inactive)) rs
        ≡ filter (λ r. is_none r.deleted_at && (include_inactive || r.is_active)) rs
  listed-shown true rs = filter_cong _ _ rs (λ r. ground arith)
  listed-shown false rs = filter_cong _ _ rs (λ r. ground arith)

  Repository-list_paginated_inv :
      (page page_size total : ℕ) (include_inactive : Bool) (items : List UnitRow) (w t : World ctx)
      → Repository.list_paginated ctx page page_size include_inactive w ≡ (ok (items, total), t)
      → (order : List UnitRow) × Perm order (shown include_inactive w.db)
        × (items ≡ take page_size (drop ((page - 1) * page_size) order))
        × (total ≡ length (shown include_inactive w.db))
        × (t ≡ w)
  unfolding Repository.list_paginated skip_of
  Repository-list_paginated_inv page page_size total include_inactive items w t h =
      let find_many =
        ctx.client.unit.find_many (listed include_inactive) (skip_of page page_size) page_size in
      let (found, s, e, f) = >>=_inv (query ctx find_many) _ w h in
      let (n, x, g, k) =
        >>=_inv (query ctx (ctx.client.unit.count (listed include_inactive))) _ s f in
      let (many, same) = query_inv ctx find_many found w s e in
      let (count, still) =
        query_inv ctx (ctx.client.unit.count (listed include_inactive)) n s x g in
      let (pair, last) = ok_state k in
      let (order, arranged, cut) = laws.many _ _ _ w.db found many in
      let filtered = listed-shown include_inactive (rows w.db) in
      (
        order,
        subst (Perm order) filtered arranged,
        ap (λ p. p.0) (sym pair) ∙ cut,
        ap (λ p. p.1) (sym pair) ∙ laws.counted _ w.db n (rw same at count) ∙ ap length filtered,
        sym last ∙ still ∙ same,
      )

  -- A page that the service returns shows the rows of that page, of the rows that are not deleted
  -- and, unless inactive ones are asked for, active, in the order that the database gives them; its
  -- total is their number, and a listing changes nothing.
  pub list_paginated_lem :
      (page page_size : ℕ) (include_inactive : Bool) (response : UnitListResponse) (w t : World ctx)
      → list_paginated ctx (get_unit_repository ctx) page page_size include_inactive w
        ≡ (ok response, t)
      → (order : List UnitRow) × Perm order (shown include_inactive w.db)
        × (to_responses ctx (take page_size (drop ((page - 1) * page_size) order))
            ≡ some response.items)
        × (response.meta.total ≡ length (shown include_inactive w.db))
        × (response.meta.total_pages ≡ total_pages_of page_size response.meta.total)
        × (t ≡ w)
  unfolding list_paginated
  list_paginated_lem page page_size include_inactive response w t h =
      let ((items, total), s, e, f) =
        >>=_inv (Repository.list_paginated ctx page page_size include_inactive) _ w h in
      let (replies, x, g, k) = >>=_inv (or_unhandled ctx (to_responses ctx items)) _ s f in
      let (meta, y, m, n) = >>=_inv (or_unhandled ctx (build page page_size total)) _ x k in
      let (order, arranged, cut, count, same) =
        Repository-list_paginated_inv page page_size total include_inactive items w s e in
      let (read, still) = or_unhandled_inv ctx _ replies s x g in
      let (built, kept) = or_unhandled_inv ctx _ meta x y m in
      let (_, _, t_total, t_pages) = build_inv page page_size total meta built in
      let (result, last) = ok_state n in
      (
        order,
        arranged,
        rw (← cut, ← result) read,
        rw (← result) (t_total ∙ count),
        rw (← result) (rw t_total t_pages),
        sym last ∙ kept ∙ still ∙ same,
      )
