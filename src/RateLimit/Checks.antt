-- ===== src/RateLimit/Checks.antt =====
-- What `check` of src/core/rate_limit.py answers and leaves.
use pizzaria_api.Prelude.{ℕ, ◌+◌, ◌-◌, ◌*◌, ◌≤◌, ◌≡◌, refl, Option, none, some, arith, max}
use pizzaria_api.Prelude.Dict.{Str, str_eq_iff, lookup-erase, erase-HasDistinctKeys}
use pizzaria_api.Action.{ok, failed}
use pizzaria_api.Errors.{domain, too_many_requests_error}
use pizzaria_api.RateLimit.{second, RateLimitPolicy, Window, Limiter, ceil_seconds, check}
use pizzaria_api.RateLimit.Views.{view, IsValid}

-- The verdict on a caller, from the view alone.
abbrev pub Blocks : RateLimitPolicy → Option Window → Type 0
Blocks policy none = ⊥
Blocks policy (some w) = policy.max_attempts ≤ w.count

-- A clock that never runs backwards.
abbrev pub IsMonotone : (ℕ → ℕ) → Type 0
IsMonotone clock = (i j : ℕ) → i ≤ j → clock i ≤ clock j

pub wait_covers : (e c wait : ℕ) → wait ≡ max (ceil_seconds (e - c)) 1 → e ≤ c + wait * second
unfolding ceil_seconds
wait_covers e c wait h = ground arith

module _ (clock : ℕ → ℕ) where
  -- A caller whose key has no live window at the reading of the clock, or one that has not counted
  -- `max_attempts`, gets no exception.
  pub check_admits :
      (key : Str) (policy : RateLimitPolicy) (l : Limiter)
      → ¬ Blocks policy (view (clock l.reads) key l)
      → (check clock key policy l).0 ≡ ok tt
  unfolding check
  check_admits key policy l h = ground arith

  -- By a clock that never runs backwards, a caller whose live window has counted `max_attempts`
  -- gets a 429 that names a wait of at least a second; by the end of the wait, from the reading
  -- that it was computed from, the window has expired, and the wait is no longer than the rest of
  -- the window rounded up.
  pub check_blocks :
      (key : Str) (policy : RateLimitPolicy) (l : Limiter) (w : Window)
      → IsMonotone clock
      → view (clock l.reads) key l ≡ some w
      → policy.max_attempts ≤ w.count
      → (wait : ℕ) × ((check clock key policy l).0 ≡ failed (domain (too_many_requests_error wait)))
        × (1 ≤ wait)
        × (wait ≤ ceil_seconds (w.expires_at - clock l.reads))
        × (w.expires_at ≤ clock (l.reads + 1) + wait * second)
  unfolding check ceil_seconds
  check_blocks key policy l w mono e h =
      let later = mono l.reads (l.reads + 1) (omega arith) in
      (
        max (ceil_seconds (w.expires_at - clock (l.reads + 1))) 1,
        ground arith,
        ground arith,
        ground arith,
        wait_covers w.expires_at (clock (l.reads + 1)) _ refl,
      )

  -- A check changes no view of any key from its first reading of the clock on, though it deletes
  -- what has expired.
  pub check-view :
      (t : ℕ) (key j : Str) (policy : RateLimitPolicy) (l : Limiter)
      → clock l.reads ≤ t
      → view t j (check clock key policy l).1 ≡ view t j l
  unfolding check
  check-view t key j policy l p = ground (arith, lookup-erase key j l.windows, str_eq_iff key j)

  pub reads-check :
      (key : Str) (policy : RateLimitPolicy) (l : Limiter)
      → l.reads ≤ (check clock key policy l).1.reads
  unfolding check
  reads-check key policy l = ground arith

  pub check-IsValid :
      (key : Str) (policy : RateLimitPolicy) (l : Limiter)
      → IsValid l
      → IsValid (check clock key policy l).1
  unfolding check
  check-IsValid key policy l v = ground (arith, erase-HasDistinctKeys key l.windows)
