-- ===== src/RateLimit.antt =====
-- src/core/rate_limit.py: a fixed window per key, kept in the process's memory. Instants are whole
-- nanoseconds; the rounding of the floats that `time.monotonic` returns is left out.
-- The clock is the sequence of its readings, and the state counts how many were taken, so that two
-- calls of `self._clock()` in one method are two readings.
pub mod Views
pub mod Checks
pub mod Steps
pub mod Held
pub mod Bound
pub mod Spec
pub mod Refinement
pub mod Memory
pub mod Retry
use pizzaria_api.Prelude.{
  ℕ, ◌+◌, ◌-◌, ◌*◌, ◌/◌, max, Option, none, some, List, [], map, leb, if◌then◌else◌, length, filter,
}
use pizzaria_api.Prelude.Dict.{Str, Dict, lookup, insert, erase, erase_all}
use pizzaria_api.Errors.{too_many_requests_error}
use pizzaria_api.Action.{Action, pure, raise, ◌>>=◌, ◌>>◌, gets, modify}

abbrev pub second : ℕ
second = 1000000000

abbrev pub sweep_threshold : ℕ
sweep_threshold = 10000

pub record RateLimitPolicy : Type 0 where
  pub max_attempts : ℕ
  pub window_seconds : ℕ

pub record Window : Type 0 where
  pub expires_at : ℕ
  pub count : ℕ

-- `InMemoryRateLimiter`
pub record Limiter : Type 0 where
  pub windows : Dict Window
  pub reads : ℕ

-- `math.ceil` of a time in seconds
unfoldable pub ceil_seconds : ℕ → ℕ
ceil_seconds d = (d + (second - 1)) / second

-- `InMemoryRateLimiter()`
unfoldable pub new_limiter : Limiter
new_limiter = record { windows = []; reads = 0 }

abbrev pub expired_keys : ℕ → Dict Window → List Str
expired_keys now d = map (λ e. e.0) (filter (λ e. leb (e.1).expires_at now) d)

unfoldable pub reset : Str → Action Limiter (Unit {0})
reset key = modify (λ l. record l { windows = erase key l.windows })

unfoldable pub clear : Action Limiter (Unit {0})
clear = modify (λ l. record l { windows = [] })

module _ (clock : ℕ → ℕ) where
  abbrev pub read_clock : Action Limiter ℕ
  read_clock l = pure (clock l.reads) (record l { reads = l.reads + 1 })

  -- What is left of a window that was found.
  abbrev pub unless_expired : Str → Window → ℕ → Action Limiter (Option Window)
  unless_expired key w now =
      if leb w.expires_at now
      then (modify (λ l. record l { windows = erase key l.windows }) >> pure none)
      else pure (some w)

  abbrev pub found_window : Str → Option Window → Action Limiter (Option Window)
  found_window key none = pure none
  found_window key (some w) = read_clock >>= unless_expired key w

  unfoldable pub active_window : Str → Action Limiter (Option Window)
  active_window key = gets (λ l. lookup key l.windows) >>= found_window key

  -- The wait that a blocked caller is told.
  abbrev pub block : Window → Action Limiter (Unit {0})
  block w = do
    now ← read_clock
    raise (too_many_requests_error (max (ceil_seconds (w.expires_at - now)) 1))

  abbrev pub refuse_over : RateLimitPolicy → Option Window → Action Limiter (Unit {0})
  refuse_over policy none = pure tt
  refuse_over policy (some w) = if leb policy.max_attempts w.count then block w else pure tt

  unfoldable pub check : Str → RateLimitPolicy → Action Limiter (Unit {0})
  unfolding active_window
  check key policy = active_window key >>= refuse_over policy

  unfoldable pub sweep_expired : Action Limiter (Unit {0})
  sweep_expired = do
    now ← read_clock
    modify (λ l. record l { windows = erase_all (expired_keys now l.windows) l.windows })

  abbrev pub sweep_if_full : Action Limiter (Unit {0})
  sweep_if_full l = (if leb sweep_threshold (length l.windows) then sweep_expired else pure tt) l

  abbrev pub open_window : Str → RateLimitPolicy → Action Limiter (Unit {0})
  open_window key policy = do
    sweep_if_full
    now ← read_clock
    modify (λ l. record l {
      windows =
          insert key (record { expires_at = now + policy.window_seconds * second; count = 1 })
            l.windows;
    })

  abbrev pub count_in : Str → RateLimitPolicy → Option Window → Action Limiter (Unit {0})
  count_in key policy none = open_window key policy
  count_in key policy (some w) =
      modify (λ l. record l { windows = insert key (record w { count = w.count + 1 }) l.windows })

  -- `record`; the name is a word of the language
  unfoldable pub record_attempt : Str → RateLimitPolicy → Action Limiter (Unit {0})
  unfolding active_window sweep_expired
  record_attempt key policy = active_window key >>= count_in key policy
