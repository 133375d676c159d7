-- ===== src/RateLimit/Steps.antt =====
-- What `record` and `reset` of src/core/rate_limit.py do to every view: the refinement of the
-- dictionary with its lazy deletion and its sweep by one fixed window per key.
use pizzaria_api.Prelude.{
  ℕ, ◌+◌, ◌≤◌, ◌≡◌, ◌∙◌, false, none, some, arith, false, if◌then◌else◌, inl, inr, Option-cases,
}
use pizzaria_api.Prelude.Dict.{
  Str, insert, str_eq, lookup-insert, lookup-erase, insert-HasDistinctKeys,
}
use pizzaria_api.Action.{ok}
use pizzaria_api.RateLimit.{
  RateLimitPolicy, Window, Limiter, reset, active_window, sweep_if_full, open_window,
  record_attempt, sweep_expired,
}
use pizzaria_api.RateLimit.Views.{
  live, view, IsValid, first_window, sweep_expired-view, sweep_expired-IsValid, active_window_lem,
  active_window-view, active_window-IsValid,
}
use pizzaria_api.RateLimit.Checks.{IsMonotone}

module _ (clock : ℕ → ℕ) where
  sweep_if_full-view :
      (t : ℕ) (j : Str) (l : Limiter)
      → clock l.reads ≤ t
      → IsValid l
      → view t j (sweep_if_full clock l).1 ≡ view t j l
  sweep_if_full-view t j l p v = ground (arith, sweep_expired-view clock t j l p v)

  sweep_if_full-IsValid : (l : Limiter) → IsValid l → IsValid (sweep_if_full clock l).1
  sweep_if_full-IsValid l v = ground (arith, sweep_expired-IsValid clock l v)

  -- Opening a window keeps every other view, whether or not the sweep runs first.
  sweep_if_full-ok : (l : Limiter) → (sweep_if_full clock l).0 ≡ ok tt
  unfolding sweep_expired
  sweep_if_full-ok l = ground arith

  -- What opening a window writes once the sweep is done.
  pub open_window_lem :
      (key : Str) (policy : RateLimitPolicy) (l : Limiter)
      → let m = (sweep_if_full clock l).1 in
        open_window clock key policy l ≡ (
          ok tt,
          record {
            windows = insert key (first_window policy (clock m.reads)) m.windows;
            reads = m.reads + 1;
          },
        )
  open_window_lem key policy l = ground (arith, sweep_if_full-ok l)

  open_window-view :
      (t : ℕ) (key j : Str) (policy : RateLimitPolicy) (l : Limiter)
      → clock l.reads ≤ t
      → IsValid l
      → view t j (open_window clock key policy l).1 ≡ (
          if str_eq key j
          then live t (some (first_window policy (clock (sweep_if_full clock l).1.reads)))
          else view t j l)
  open_window-view t key j policy l p v =
      let m = (sweep_if_full clock l).1 in
      ground (
        arith,
        open_window_lem key policy l,
        lookup-insert key j (first_window policy (clock m.reads)) m.windows,
        sweep_if_full-view t j l p v,
      )

  pub reads-sweep_if_full : (l : Limiter) → l.reads ≤ (sweep_if_full clock l).1.reads
  unfolding sweep_expired
  reads-sweep_if_full l = ground arith

  pub reads-active_window :
      (key : Str) (l : Limiter) → l.reads ≤ (active_window clock key l).1.reads
  unfolding active_window
  reads-active_window key l = ground arith

  pub reads-record_attempt :
      (key : Str) (policy : RateLimitPolicy) (l : Limiter)
      → l.reads ≤ (record_attempt clock key policy l).1.reads
  unfolding record_attempt sweep_expired
  reads-record_attempt key policy l = ground arith

  -- Where a window is live, a recorded attempt adds one to it and touches no other key.
  pub record_attempt-view-live :
      (t : ℕ) (key j : Str) (policy : RateLimitPolicy) (l : Limiter) (w : Window)
      → clock l.reads ≤ t
      → view (clock l.reads) key l ≡ some w
      → view t j (record_attempt clock key policy l).1
        ≡ (if str_eq key j then live t (some (record w { count = w.count + 1 })) else view t j l)
  unfolding record_attempt
  record_attempt-view-live t key j policy l w p e =
      ground (arith, lookup-insert key j (record w { count = w.count + 1 }) l.windows)

  pub record_attempt_new :
      (key : Str) (policy : RateLimitPolicy) (l : Limiter)
      → view (clock l.reads) key l ≡ none
      → record_attempt clock key policy l
        ≡ open_window clock key policy (active_window clock key l).1
  unfolding record_attempt
  record_attempt_new key policy l e = ground (arith, active_window_lem clock key l)

  -- Where no window is live, a recorded attempt opens one that holds it alone, for the policy's
  -- length from an instant of the call, and touches no other key, whether or not a sweep runs.
  pub record_attempt-view_new :
      (key : Str) (policy : RateLimitPolicy) (l : Limiter)
      → IsMonotone clock
      → IsValid l
      → view (clock l.reads) key l ≡ none
      → (now : ℕ) × (clock l.reads ≤ now)
        × (now ≤ clock (record_attempt clock key policy l).1.reads)
        × ((t : ℕ) (j : Str)
            → now ≤ t
            → view t j (record_attempt clock key policy l).1
              ≡ (if str_eq key j then live t (some (first_window policy now)) else view t j l))
  record_attempt-view_new key policy l mono v e =
      let a = (active_window clock key l).1 in
      let m = (sweep_if_full clock a).1 in
      let read = mono l.reads a.reads (reads-active_window key l) in
      let swept = mono a.reads m.reads (reads-sweep_if_full a) in
      (
        clock m.reads,
        omega arith,
        rw (record_attempt_new key policy l e, open_window_lem key policy a)
            (mono m.reads (m.reads + 1) (omega arith)),
        λ t j p. rw (record_attempt_new key policy l e) (
            ground (
              arith,
              open_window-view t key j policy a (omega arith) (active_window-IsValid clock key l v),
              active_window-view clock t key j l (omega arith),
            )),
      )

  open_window-IsValid :
      (key : Str) (policy : RateLimitPolicy) (l : Limiter)
      → IsValid l
      → IsValid (open_window clock key policy l).1
  open_window-IsValid key policy l v =
      let m = (sweep_if_full clock l).1 in
      rw (open_window_lem key policy l) (record {
        distinct =
            insert-HasDistinctKeys key (first_window policy (clock m.reads)) m.windows
              (sweep_if_full-IsValid l v).distinct;
      })

  counted-IsValid :
      (key : Str) (policy : RateLimitPolicy) (l : Limiter) (w : Window)
      → IsValid l
      → view (clock l.reads) key l ≡ some w
      → IsValid (record_attempt clock key policy l).1
  unfolding record_attempt
  counted-IsValid key policy l w v e =
      ground
        (arith, insert-HasDistinctKeys key (record w { count = w.count + 1 }) l.windows v.distinct)

  counted-ok :
      (key : Str) (policy : RateLimitPolicy) (l : Limiter) (w : Window)
      → view (clock l.reads) key l ≡ some w
      → (record_attempt clock key policy l).0 ≡ ok tt
  unfolding record_attempt
  counted-ok key policy l w e = ground arith

  -- If no key is stored twice, no key is stored twice after a recorded attempt, sweep or not.
  pub record_attempt-IsValid :
      (key : Str) (policy : RateLimitPolicy) (l : Limiter)
      → IsValid l
      → IsValid (record_attempt clock key policy l).1
  record_attempt-IsValid key policy l v = elim (Option-cases (view (clock l.reads) key l)) [
    | inl fresh ↦
        rw (record_attempt_new key policy l fresh)
          (open_window-IsValid key policy _ (active_window-IsValid clock key l v))
    | inr (w, e) ↦ counted-IsValid key policy l w v e
  ]

  pub record_attempt-ok :
      (key : Str) (policy : RateLimitPolicy) (l : Limiter)
      → (record_attempt clock key policy l).0 ≡ ok tt
  record_attempt-ok key policy l = elim (Option-cases (view (clock l.reads) key l)) [
    | inl fresh ↦ rw (
      record_attempt_new key policy l fresh,
      open_window_lem key policy (active_window clock key l).1,
    )
    | inr (w, e) ↦ counted-ok key policy l w e
  ]

  -- A recorded attempt changes nothing of another key.
  pub record_attempt-view_other :
      (t : ℕ) (key j : Str) (policy : RateLimitPolicy) (l : Limiter)
      → IsMonotone clock
      → IsValid l
      → str_eq key j ≡ false
      → clock (record_attempt clock key policy l).1.reads ≤ t
      → view t j (record_attempt clock key policy l).1 ≡ view t j l
  record_attempt-view_other t key j policy l mono v other p =
      let after =
        mono l.reads (record_attempt clock key policy l).1.reads
          (reads-record_attempt key policy l) in
      elim (Option-cases (view (clock l.reads) key l)) [
        | inl fresh ↦
            let (now, started, ended, views) = record_attempt-view_new key policy l mono v fresh in
            views t j (omega arith) ∙ rw other
        | inr (w, e) ↦ record_attempt-view-live t key j policy l w (omega arith) e ∙ rw other
      ]

-- After a reset the key has no window at any instant, and no other key is touched.
pub reset-view :
    (t : ℕ) (key j : Str) (l : Limiter)
    → view t j (reset key l).1 ≡ (if str_eq key j then none else view t j l)
unfolding reset
reset-view t key j l = ground (arith, lookup-erase key j l.windows)
