-- ===== src/RateLimit/Spec.antt =====
-- What the calls of `RateLimiterProtocol` of src/core/rate_limit.py promise, each at one instant: a
-- table of one fixed window per key, with no dictionary, no deletion and no sweep.
use pizzaria_api.Prelude.{
  ℕ, ◌+◌, ◌≤◌, Bool, true, false, not, Option, none, some, List, [], ◌∷◌, leb, if◌then◌else◌,
}
use pizzaria_api.Prelude.Dict.{Str, str_eq}
use pizzaria_api.Action.{Action}
use pizzaria_api.RateLimit.{RateLimitPolicy, Window, Limiter, check, record_attempt, reset}
use pizzaria_api.RateLimit.Views.{live, first_window}
use pizzaria_api.RateLimit.Held.{passed}

-- `RateLimiterProtocol`
pub data Call : Type 0 where
  check_call : Str → RateLimitPolicy → Call
  record_call : Str → RateLimitPolicy → Call
  reset_call : Str → Call

-- The limiter's method for a call.
abbrev pub serve : (ℕ → ℕ) → Call → Action Limiter (Unit {0})
serve clock (check_call key policy) = check clock key policy
serve clock (record_call key policy) = record_attempt clock key policy
serve clock (reset_call key) = reset key

-- Any sequence of calls: which of them returned, and the limiter after them.
unfoldable pub serve_all : (ℕ → ℕ) → List Call → Limiter → List Bool × Limiter
serve_all clock [] l = ([], l)
serve_all clock (c ∷ cs) l =
    let (r, l') = serve clock c l in
    let (rs, final) = serve_all clock cs l' in (passed r ∷ rs, final)

-- The last window of every key, whether it is over or not.
abbrev pub Table : Type 0
Table = Str → Option Window

abbrev pub empty_table : Table
empty_table key = none

abbrev pub is_full : RateLimitPolicy → Option Window → Bool
is_full policy none = false
is_full policy (some w) = leb policy.max_attempts w.count

-- The window of a key once an attempt is counted in it.
abbrev pub counted : RateLimitPolicy → ℕ → Option Window → Window
counted policy now none = first_window policy now
counted policy now (some w) = record w { count = w.count + 1 }

-- Does the call at `now` return?
abbrev pub answer : ℕ → Call → Table → Bool
answer now (check_call key policy) s = not (is_full policy (live now (s key)))
answer now (record_call key policy) s = true
answer now (reset_call key) s = true

-- The table after the call at `now`.
abbrev pub after : ℕ → Call → Table → Table
after now (check_call key policy) s j = s j
after now (record_call key policy) s j =
    if str_eq key j then some (counted policy now (live now (s key))) else s j
after now (reset_call key) s j = if str_eq key j then none else s j

-- A call at each of the instants.
unfoldable pub answer_all : List ℕ → List Call → Table → List Bool × Table
answer_all [] cs s = ([], s)
answer_all (now ∷ ts) [] s = ([], s)
answer_all (now ∷ ts) (c ∷ cs) s =
    let (rs, final) = answer_all ts cs (after now c s) in (answer now c s ∷ rs, final)

-- The instants are in order, from `start` to `end`.
abbrev pub InOrder : ℕ → List ℕ → ℕ → Type 0
InOrder start [] end = start ≤ end
InOrder start (t ∷ ts) end = (start ≤ t) × InOrder t ts end
