-- ===== src/Pagination.antt =====
-- src/shared/types.py: `PaginationMeta`, and the window that the repositories cut for a page.
pub mod Laws
use pizzaria_api.Prelude.{
  ℕ, ◌+◌, ◌-◌, ◌*◌, ◌/◌, Bool, ◌&&◌, leb, ◌==◌, if◌then◌else◌, Option, none, some,
}

pub record PaginationMeta : Type 0 where
  pub page : ℕ
  pub page_size : ℕ
  pub total : ℕ
  pub total_pages : ℕ

-- `(total + page_size - 1) // page_size if total else 0`
unfoldable pub total_pages_of : ℕ → ℕ → ℕ
total_pages_of page_size total = if total == 0 then 0 else (total + page_size - 1) / page_size

-- The constraints on the fields; `none` stands for the `ValidationError`, and for the
-- `ZeroDivisionError` at a page size of zero.
unfoldable pub build : ℕ → ℕ → ℕ → Option PaginationMeta
unfolding total_pages_of
build page page_size total =
    if leb 1 page && leb 1 page_size && leb page_size 100
    then some (record {
      page = page;
      page_size = page_size;
      total = total;
      total_pages = total_pages_of page_size total;
    })
    else none

-- `skip = (page - 1) * page_size`, for the pages from 1 on that the controllers let through.
unfoldable pub skip_of : ℕ → ℕ → ℕ
skip_of page page_size = (page - 1) * page_size
