-- ===== src/RateLimit/Views.antt =====
-- What a limiter holds for a key at an instant: the abstract view of src/core/rate_limit.py, in
-- which an expired window and no window are the same.
use pizzaria_api.Prelude.{
  ℕ, ◌+◌, ◌*◌, ◌≤◌, ◌≡◌, refl, Option, none, some, [], ◌∷◌, arith, leb, false, if◌then◌else◌,
}
use pizzaria_api.Prelude.Dict.{
  Str, Dict, lookup, contains, str_eq_iff, HasDistinctKeys, lookup-erase, lookup-erase_all,
  erase-HasDistinctKeys, erase_all-HasDistinctKeys,
}
use pizzaria_api.Action.{ok}
use pizzaria_api.RateLimit.{
  second, RateLimitPolicy, Window, Limiter, expired_keys, active_window, sweep_expired,
}

abbrev pub live : ℕ → Option Window → Option Window
live t none = none
live t (some w) = if leb w.expires_at t then none else some w

abbrev pub view : ℕ → Str → Limiter → Option Window
view t key l = live t (lookup key l.windows)

-- No key is stored twice.
pub record IsValid (l : Limiter) : Type 0 where
  pub distinct : HasDistinctKeys l.windows

-- The window that a first attempt opens.
abbrev pub first_window : RateLimitPolicy → ℕ → Window
first_window policy now = record { expires_at = now + policy.window_seconds * second; count = 1 }

pub not-contains-expired_keys :
    (now : ℕ) (j : Str) (d : Dict Window)
    → lookup j d ≡ none
    → contains j (expired_keys now d) ≡ false
unfolding lookup contains
not-contains-expired_keys now j [] h = refl
not-contains-expired_keys now j ((k, w) ∷ d) h =
    ground (arith, str_eq_iff k j, str_eq_iff j k, not-contains-expired_keys now j d)

-- Deleting what has expired by `now` changes no view from then on.
pub live-expired_keys :
    (now t : ℕ) (j : Str) (d : Dict Window)
    → now ≤ t
    → HasDistinctKeys d
    → live t (if contains j (expired_keys now d) then none else lookup j d) ≡ live t (lookup j d)
unfolding lookup contains
live-expired_keys now t j [] p h = refl
live-expired_keys now t j ((k, w) ∷ d) p h = ground (
  arith,
  str_eq_iff k j,
  str_eq_iff j k,
  not-contains-expired_keys now j d,
  live-expired_keys now t j d p h.1,
)

module _ (clock : ℕ → ℕ) where
  pub sweep_expired-view :
      (t : ℕ) (j : Str) (l : Limiter)
      → clock l.reads ≤ t
      → IsValid l
      → view t j (sweep_expired clock l).1 ≡ view t j l
  unfolding sweep_expired
  sweep_expired-view t j l p v =
      rw lookup-erase_all (live-expired_keys (clock l.reads) t j l.windows p v.distinct)

  pub sweep_expired-IsValid : (l : Limiter) → IsValid l → IsValid (sweep_expired clock l).1
  unfolding sweep_expired
  sweep_expired-IsValid l v = record {
    distinct =
        erase_all-HasDistinctKeys (expired_keys (clock l.reads) l.windows) l.windows v.distinct;
  }

  -- The lookup answers with the view at its reading of the clock, and changes no later view.
  pub active_window_lem :
      (key : Str) (l : Limiter) → (active_window clock key l).0 ≡ ok (view (clock l.reads) key l)
  unfolding active_window
  active_window_lem key l = ground arith

  pub active_window-view :
      (t : ℕ) (key j : Str) (l : Limiter)
      → clock l.reads ≤ t
      → view t j (active_window clock key l).1 ≡ view t j l
  unfolding active_window
  active_window-view t key j l p = ground (arith, lookup-erase key j l.windows, str_eq_iff key j)

  pub active_window-IsValid :
      (key : Str) (l : Limiter) → IsValid l → IsValid (active_window clock key l).1
  unfolding active_window
  active_window-IsValid key l v = ground (arith, erase-HasDistinctKeys key l.windows)
