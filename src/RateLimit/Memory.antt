-- ===== src/RateLimit/Memory.antt =====
-- How many windows src/core/rate_limit.py keeps: the sweep of `record` once there are ten thousand.
use pizzaria_api.Prelude.{
  max, ◌⊎◌, All_of_each, All_mono, All-combine, refl, ℕ, ◌+◌, ◌≤◌, ◌<◌, ◌≡◌, false, some, List, [],
  ◌∷◌, arith, leb, leb-le, length, All, inl, inr, Option-cases, Bool-cases, suc,
}
use pizzaria_api.Prelude.Dict.{
  Str, Dict, str_eq, str_eq_iff, str_eq_refl, contains, lookup, insert, erase, erase_all,
}
use pizzaria_api.Action.{ok}
use pizzaria_api.RateLimit.{
  RateLimitPolicy, Window, Limiter, sweep_threshold, expired_keys, active_window, sweep_expired,
  sweep_if_full, record_attempt, open_window,
}
use pizzaria_api.RateLimit.Views.{view, first_window}
use pizzaria_api.RateLimit.Checks.{IsMonotone}
use pizzaria_api.RateLimit.Steps.{
  record_attempt_new, open_window_lem, reads-active_window, reads-sweep_if_full,
}

module _ {ℓ} {V : Type ℓ} where
  length-insert-le : (k : Str) (v : V) (d : Dict V) → length (insert k v d) ≤ suc (length d)
  unfolding insert
  length-insert-le k v [] = omega arith
  length-insert-le k v ((j, w) ∷ d) = ground (arith, length-insert-le k v d)

  length-insert_present :
      (k : Str) (v w : V) (d : Dict V) → lookup k d ≡ some w → length (insert k v d) ≡ length d
  unfolding insert lookup
  length-insert_present k v w [] e = cc
  length-insert_present k v w ((j, x) ∷ d) e = ground (arith, length-insert_present k v w d)

  length-erase-le : (k : Str) (d : Dict V) → length (erase k d) ≤ length d
  unfolding erase
  length-erase-le k [] = omega arith
  length-erase-le k ((j, w) ∷ d) = ground (arith, length-erase-le k d)

  All-insert :
      (P : Str × V → Type 0) (k : Str) (v : V) (d : Dict V)
      → P (k, v)
      → All P d
      → All P (insert k v d)
  unfolding insert
  All-insert P k v [] p h = (p, tt)
  All-insert P k v ((j, w) ∷ d) p (q, h) = ground (arith, All-insert P k v d p h)

  All-erase : (P : Str × V → Type 0) (k : Str) (d : Dict V) → All P d → All P (erase k d)
  unfolding erase
  All-erase P k [] h = tt
  All-erase P k ((j, w) ∷ d) (q, h) = ground (arith, All-erase P k d h)

  All-erase_all :
      (P : Str × V → Type 0) (ks : List Str) (d : Dict V) → All P d → All P (erase_all ks d)
  unfolding erase_all
  All-erase_all P [] d h = h
  All-erase_all P (k ∷ ks) d h = All-erase_all P ks (erase k d) (All-erase P k d h)

  erase-without : (k : Str) (d : Dict V) → All (λ e. str_eq e.0 k ≡ false) (erase k d)
  unfolding erase
  erase-without k [] = tt
  erase-without k ((j, w) ∷ d) = ground (arith, str_eq_iff k j, str_eq_iff j k, erase-without k d)

-- A window that has not ended at `now`.
abbrev pub IsLive : ℕ → Str × Window → Type 0
IsLive now e = now < (e.1).expires_at

abbrev NotListed : List Str → Str × Window → Type 0
NotListed ks e = contains e.0 ks ≡ false

abbrev LiveUnlessListed : ℕ → List Str → Str × Window → Type 0
LiveUnlessListed now ks e = contains e.0 ks ≡ false → IsLive now e

erase_all-NotListed : (ks : List Str) (d : Dict Window) → All (NotListed ks) (erase_all ks d)
unfolding erase_all contains
erase_all-NotListed [] d = All_of_each _ d (λ e. refl)
erase_all-NotListed (k ∷ ks) d =
    All-combine (λ e. str_eq e.0 k ≡ false) (NotListed ks) _ (erase_all ks (erase k d))
      (λ e p q. rw (p, q))
      (All-erase_all (λ e. str_eq e.0 k ≡ false) ks (erase k d) (erase-without k d))
      (erase_all-NotListed ks (erase k d))

expired_keys-LiveUnlessListed :
    (now : ℕ) (d : Dict Window) → All (LiveUnlessListed now (expired_keys now d)) d
unfolding contains
expired_keys-LiveUnlessListed now [] = tt
expired_keys-LiveUnlessListed now ((k, w) ∷ d) = (
  ground (arith, str_eq_refl k),
  All_mono (LiveUnlessListed now (expired_keys now d)) _ d (λ e q. ground (arith, q))
      (expired_keys-LiveUnlessListed now d),
)

module _ (clock : ℕ → ℕ) where
  -- After a sweep only live windows are left.
  sweep_expired-IsLive :
      (l : Limiter) → All (IsLive (clock l.reads)) (sweep_expired clock l).1.windows
  unfolding sweep_expired
  sweep_expired-IsLive l =
      let now = clock l.reads in
      let ks = expired_keys now l.windows in
      All-combine (NotListed ks) (LiveUnlessListed now ks) (IsLive now) _ (λ e p q. q p)
        (erase_all-NotListed ks l.windows)
        (All-erase_all (LiveUnlessListed now ks) ks l.windows
          (expired_keys-LiveUnlessListed now l.windows))

  length-active_window-le :
      (key : Str) (l : Limiter) → length (active_window clock key l).1.windows ≤ length l.windows
  unfolding active_window
  length-active_window-le key l = ground (arith, length-erase-le key l.windows)

  sweep_if_full_swept :
      (l : Limiter)
      → sweep_threshold ≤ length l.windows
      → All (IsLive (clock l.reads)) (sweep_if_full clock l).1.windows
  sweep_if_full_swept l full = ground (arith, sweep_expired-IsLive l)

  sweep_if_full_kept :
      (l : Limiter) → length l.windows < sweep_threshold → sweep_if_full clock l ≡ (ok tt, l)
  sweep_if_full_kept l room = ground arith

  length-record_attempt-live :
      (key : Str) (policy : RateLimitPolicy) (l : Limiter) (w : Window)
      → view (clock l.reads) key l ≡ some w
      → length (record_attempt clock key policy l).1.windows ≡ length l.windows
  unfolding record_attempt
  length-record_attempt-live key policy l w e =
      ground (arith, length-insert_present key (record w { count = w.count + 1 }) w l.windows)

  opened_IsLive :
      (key : Str) (policy : RateLimitPolicy) (l : Limiter)
      → IsMonotone clock
      → 0 < policy.window_seconds
      → sweep_threshold ≤ length l.windows
      → All (IsLive (clock l.reads)) (open_window clock key policy l).1.windows
  opened_IsLive key policy l mono lasts full =
      let m = (sweep_if_full clock l).1 in
      let read = mono l.reads m.reads (reads-sweep_if_full clock l) in
      rw (open_window_lem clock key policy l) (
        All-insert (IsLive (clock l.reads)) key (first_window policy (clock m.reads)) m.windows
          (omega arith) (sweep_if_full_swept l full))

  reads-open_window :
      (key : Str) (policy : RateLimitPolicy) (l : Limiter)
      → l.reads ≤ (open_window clock key policy l).1.reads
  reads-open_window key policy l =
      rw (open_window_lem clock key policy l) (omega (arith, reads-sweep_if_full clock l))

  length-open_window-le :
      (key : Str) (policy : RateLimitPolicy) (l : Limiter)
      → length l.windows < sweep_threshold
      → length (open_window clock key policy l).1.windows ≤ sweep_threshold
  length-open_window-le key policy l room =
      rw (open_window_lem clock key policy l, sweep_if_full_kept l room)
        (omega (arith, length-insert-le key (first_window policy (clock l.reads)) l.windows))

-- By a clock that never runs backwards and under a policy that lasts at all, a recorded attempt
-- leaves no more windows than there were or than ten thousand, or it swept: every window that is
-- then stored ends after an instant of the call.
pub record_attempt-IsLive :
    (clock : ℕ → ℕ) (key : Str) (policy : RateLimitPolicy) (l : Limiter)
    → IsMonotone clock
    → 0 < policy.window_seconds
    → (length (record_attempt clock key policy l).1.windows
        ≤ max sweep_threshold (length l.windows))
      ⊎ ((now : ℕ) × (clock l.reads ≤ now)
          × (now ≤ clock (record_attempt clock key policy l).1.reads)
          × All (IsLive now) (record_attempt clock key policy l).1.windows)
record_attempt-IsLive clock key policy l mono lasts =
    elim (Option-cases (view (clock l.reads) key l)) [
      | inr (w, e) ↦ inl (omega (arith, length-record_attempt-live clock key policy l w e))
      | inl fresh ↦
          let a = (active_window clock key l).1 in
          let same = record_attempt_new clock key policy l fresh in
          elim (Bool-cases (leb sweep_threshold (length a.windows))) [
            | inl many ↦ inr (
              clock a.reads,
              mono l.reads a.reads (reads-active_window clock key l),
              rw same (
                  mono a.reads (open_window clock key policy a).1.reads
                    (reads-open_window clock key policy a)),
              rw same (opened_IsLive clock key policy a mono lasts (leb-le _ _ many)),
            )
            | inr few ↦
                let short = length-open_window-le clock key policy a (ground arith) in
                inl (rw same (omega (arith, short)))
          ]
    ]
