-- ===== src/Pagination/Laws.antt =====
-- The pages of src/shared/types.py cover a list.
use native.Mathlib.Nat.{add-zero, suc-mul}
use mathlib.Core.List.{append_assoc, append-nil}
use pizzaria_api.Prelude.{
  ℕ, zero, suc, ◌+◌, ◌-◌, ◌*◌, ◌≤◌, ◌<◌, ◌≡◌, ap, List, [], ◌++◌, arith, take, drop, length,
  take-append-drop, drop-drop, drop_of_length-le,
}
use pizzaria_api.Pagination.{total_pages_of, skip_of}

-- The pages hold all items, and one page fewer would not.
pub total_pages_of_lem :
    (page_size total : ℕ)
    → 1 ≤ page_size
    → (total ≤ total_pages_of page_size total * page_size)
      × (1 ≤ total → (total_pages_of page_size total - 1) * page_size < total)
unfolding total_pages_of
total_pages_of_lem page_size total h = grind arith

module _ {A : Type 0} (page_size : ℕ) (xs : List A) where
  -- The rows of one page.
  abbrev pub page_of : ℕ → List A
  page_of page = take page_size (drop (skip_of page page_size) xs)

  -- The pages from `first` on, `n` of them, one after the other.
  abbrev pub pages_from : ℕ → ℕ → List A
  pages_from first zero = []
  pages_from first (suc n) = page_of first ++ pages_from (suc first) n

  pages_from-append-rest :
      (first n : ℕ)
      → pages_from (suc first) n ++ drop ((first + n) * page_size) xs ≡ drop (first * page_size) xs
  unfolding skip_of
  pages_from-append-rest first zero = ap (λ k. drop (k * page_size) xs) (add-zero first)
  pages_from-append-rest first (suc n) =
      let one : suc first - 1 ≡ first = omega arith in
      let start = ap (λ k. k * page_size) one in
      let next = suc-mul first page_size in
      let index : first + suc n ≡ suc first + n = omega arith in
      rw (start, index, append_assoc, pages_from-append-rest (suc first) n, next, ← drop-drop)
        (take-append-drop page_size (drop (first * page_size) xs))

  -- All pages, in order, are the list: no item is skipped and none is shown twice.
  pub pages_from_all : 1 ≤ page_size → pages_from 1 (total_pages_of page_size (length xs)) ≡ xs
  pages_from_all h =
      let n = total_pages_of page_size (length xs) in
      let zeroth : 0 * page_size ≡ 0 = omega arith in
      let index : 0 + n ≡ n = omega arith in
      let rest = pages_from-append-rest 0 n in
      let covered = (total_pages_of_lem page_size (length xs) h).0 in
      rw (index, zeroth, drop_of_length-le (n * page_size) xs covered, append-nil) at rest
