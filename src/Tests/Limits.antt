-- ===== src/Tests/Limits.antt =====
-- The limiter of src/core/rate_limit.py at concrete keys and instants.
use pizzaria_api.Prelude.{
  ℕ, ◌*◌, List, length, All, ◌⊎◌, true, false, ◌≤◌, ◌≡◌, refl, some, [], ◌∷◌, arith,
}
use pizzaria_api.Prelude.Dict.{Str, str_eq, lookup, insert, erase}
use pizzaria_api.Text.{codes}
use pizzaria_api.Errors.{domain, too_many_requests_error}
use pizzaria_api.Action.{ok, failed}
use pizzaria_api.Prelude.{◌+◌, ◌*◌}
use pizzaria_api.RateLimit.{second}
use pizzaria_api.RateLimit.{
  RateLimitPolicy, Window, Limiter, ceil_seconds, check, record_attempt, reset, active_window,
  sweep_expired, second, new_limiter,
}
use pizzaria_api.RateLimit.Views.{live, view, IsValid}
use pizzaria_api.RateLimit.Checks.{IsMonotone, check_blocks}
use pizzaria_api.RateLimit.Spec.{
  Call, check_call, record_call, reset_call, serve_all, empty_table, answer_all, InOrder,
}
use pizzaria_api.RateLimit.Refinement.{serve_all-answer_all}
use pizzaria_api.RateLimit.Memory.{IsLive, record_attempt-IsLive}
use pizzaria_api.RateLimit.Retry.{check_again}
use pizzaria_api.RateLimit.Held.{admitted, check_then_record}
use pizzaria_api.RateLimit.Bound.{admitted-le-max_attempts}
use pizzaria_api.Tests.Setup.{process, clock-IsMonotone}

abbrev policy : RateLimitPolicy
policy = record { max_attempts = 2; window_seconds = 60 }

abbrev key : Str
key = codes "k"

abbrev other : Str
other = codes "o"

abbrev empty : Limiter
empty = record { windows = []; reads = 0 }

abbrev full_window : Window
full_window = record { expires_at = 500; count = 2 }

-- One window, with both attempts used.
abbrev full : Limiter
full = record { windows = (key, full_window) ∷ []; reads = 7 }

empty-IsValid : IsValid empty
empty-IsValid = record { distinct = tt }

full-IsValid : IsValid full
unfolding lookup
full-IsValid = record { distinct = (refl, tt) }

view-full : view 7 key full ≡ some full_window
unfolding lookup str_eq
view-full = refl

check_blocks_example :
    (wait : ℕ) × ((check process.clock key policy full).0
      ≡ failed (domain (too_many_requests_error wait)))
    × (1 ≤ wait)
    × (wait ≤ ceil_seconds 493)
    × (full_window.expires_at ≤ process.clock (full.reads + 1) + wait * second)
check_blocks_example =
    check_blocks process.clock key policy full full_window clock-IsMonotone view-full (omega arith)

admitted-le-max_attempts_example :
    (admitted process.clock policy key (key ∷ other ∷ key ∷ key ∷ []) empty).0 ≤ 2
unfolding admitted check_then_record check record_attempt active_window sweep_expired lookup insert
    str_eq
admitted-le-max_attempts_example =
    admitted-le-max_attempts process.clock policy key (key ∷ other ∷ key ∷ key ∷ []) empty
      clock-IsMonotone empty-IsValid (omega arith) refl (omega arith)

abbrev calls : List Call
calls =
    record_call key policy
    ∷ record_call key policy
    ∷ check_call key policy
    ∷ check_call other policy
    ∷ reset_call key
    ∷ check_call key policy
    ∷ []

calls_answers :
    (serve_all process.clock calls new_limiter).0 ≡ (true ∷ true ∷ false ∷ true ∷ true ∷ true ∷ [])
unfolding serve_all check record_attempt active_window sweep_expired lookup insert str_eq reset
    erase new_limiter
calls_answers = refl

serve_all-answer_all_example :
    (ts : List ℕ) × InOrder 0 ts (process.clock (serve_all process.clock calls new_limiter).1.reads)
    × ((serve_all process.clock calls new_limiter).0 ≡ (answer_all ts calls empty_table).0)
    × ((t : ℕ) (j : Str)
        → process.clock (serve_all process.clock calls new_limiter).1.reads ≤ t
        → view t j (serve_all process.clock calls new_limiter).1
          ≡ live t ((answer_all ts calls empty_table).1 j))
serve_all-answer_all_example = serve_all-answer_all process.clock calls clock-IsMonotone

record_attempt-IsLive_example :
    (length (record_attempt process.clock other policy full).1.windows ≤ 10000)
    ⊎ ((now : ℕ) × (7 ≤ now)
        × (now ≤ process.clock (record_attempt process.clock other policy full).1.reads)
        × All (IsLive now) (record_attempt process.clock other policy full).1.windows)
record_attempt-IsLive_example =
    record_attempt-IsLive process.clock other policy full clock-IsMonotone (omega arith)

-- A clock that reads once a second, and a window that is full for another second.
abbrev seconds : ℕ → ℕ
seconds i = i * second

seconds-IsMonotone : IsMonotone seconds
seconds-IsMonotone i j p = omega arith

abbrev ending : Limiter
ending = record { windows = (key, record { expires_at = 9 * second; count = 2 }) ∷ []; reads = 7 }

ending-IsValid : IsValid ending
unfolding lookup
ending-IsValid = record { distinct = (refl, tt) }

check_again_example :
    (check seconds key policy
      (serve_all seconds (record_call other policy ∷ []) (check seconds key policy ending).1).1).0
    ≡ ok tt
unfolding serve_all check record_attempt active_window sweep_expired lookup insert str_eq
    ceil_seconds
check_again_example =
    check_again seconds key policy ending 1 (record_call other policy ∷ []) seconds-IsMonotone
      ending-IsValid refl (refl, tt) (omega arith)
