-- ===== src/RateLimit/Retry.antt =====
-- The wait that src/core/rate_limit.py names in a 429: it is enough.
use pizzaria_api.Prelude.{
  ℕ, ◌+◌, ◌-◌, ◌*◌, ◌≤◌, ◌≡◌, ◌∙◌, ap, sym, leb-le, false, none, some, List, [], ◌∷◌, arith, leb,
  max, All, inl, inr, Option-cases, Bool-cases,
}
use pizzaria_api.Prelude.Dict.{Str, str_eq, erase-HasDistinctKeys}
use pizzaria_api.Errors.{domain, too_many_requests_error, Details, fields, number}
use pizzaria_api.Action.{Result, ok, failed}
use pizzaria_api.RateLimit.{second, RateLimitPolicy, Window, Limiter, ceil_seconds, check, reset}
use pizzaria_api.RateLimit.Views.{view, IsValid}
use pizzaria_api.RateLimit.Checks.{
  IsMonotone, wait_covers, check_admits, check-view, check-IsValid, reads-check,
}
use pizzaria_api.RateLimit.Steps.{
  record_attempt-view_other, record_attempt-IsValid, reads-record_attempt, reset-view,
}
use pizzaria_api.RateLimit.Spec.{Call, check_call, record_call, reset_call, serve, serve_all}

-- The wait that an exception names.
abbrev wait_in : Details → ℕ
wait_in (fields ((_, number n) ∷ _)) = n
wait_in _ = 0

abbrev wait_of : Result (Unit {0}) → ℕ
wait_of (failed (domain e)) = wait_in e.details
wait_of _ = 0

-- A call that records no attempt under the key.
abbrev pub IsQuiet : Str → Call → Type 0
IsQuiet key (record_call j policy) = str_eq j key ≡ false
IsQuiet key _ = Unit

module _ (clock : ℕ → ℕ) (mono : IsMonotone clock) where
  blocked_for :
      (key : Str) (policy : RateLimitPolicy) (l : Limiter) (w : Window)
      → view (clock l.reads) key l ≡ some w
      → policy.max_attempts ≤ w.count
      → (check clock key policy l).0
        ≡ failed (
            domain
              (too_many_requests_error (max (ceil_seconds (w.expires_at - clock (l.reads + 1))) 1)))
  unfolding check
  blocked_for key policy l w e h = ground arith

  reads-check_blocked :
      (key : Str) (policy : RateLimitPolicy) (l : Limiter) (w : Window)
      → view (clock l.reads) key l ≡ some w
      → policy.max_attempts ≤ w.count
      → (check clock key policy l).1.reads ≡ l.reads + 2
  unfolding check
  reads-check_blocked key policy l w e h = ground arith

  view-live :
      (t : ℕ) (key : Str) (l : Limiter) (w : Window)
      → view (clock l.reads) key l ≡ some w
      → w.expires_at ≤ t
      → view t key l ≡ none
  view-live t key l w e p = ground arith

  window_over :
      (t : ℕ) (key : Str) (policy : RateLimitPolicy) (l : Limiter) (w : Window) (wait : ℕ)
      → view (clock l.reads) key l ≡ some w
      → policy.max_attempts ≤ w.count
      → (check clock key policy l).0 ≡ failed (domain (too_many_requests_error wait))
      → clock (check clock key policy l).1.reads + wait * second ≤ t
      → view t key (check clock key policy l).1 ≡ none
  unfolding too_many_requests_error
  window_over t key policy l w wait e full blocked p =
      let read : clock (l.reads + 1) ≤ clock (check clock key policy l).1.reads =
        mono (l.reads + 1) _ (omega (arith, reads-check_blocked key policy l w e full)) in
      let earlier = mono l.reads (l.reads + 1) (omega arith) in
      let same : wait ≡ max (ceil_seconds (w.expires_at - clock (l.reads + 1))) 1 =
        ap wait_of (sym blocked ∙ blocked_for key policy l w e full) in
      let covered = wait_covers w.expires_at (clock (l.reads + 1)) wait same in
      check-view clock t key key policy l (omega arith) ∙ view-live t key l w e (omega arith)

  -- What blocked a caller is over once the wait is.
  over_after_wait :
      (t : ℕ) (key : Str) (policy : RateLimitPolicy) (l : Limiter) (wait : ℕ)
      → (check clock key policy l).0 ≡ failed (domain (too_many_requests_error wait))
      → clock (check clock key policy l).1.reads + wait * second ≤ t
      → view t key (check clock key policy l).1 ≡ none
  over_after_wait t key policy l wait e p = elim (Option-cases (view (clock l.reads) key l)) [
    | inl free ↦ cc (sym (check_admits clock key policy l (rw free (λ b. b))) ∙ e)
    | inr (w, seen) ↦ elim (Bool-cases (leb policy.max_attempts w.count)) [
      | inr room ↦ cc (sym (check_admits clock key policy l (rw seen (λ b. ground arith))) ∙ e)
      | inl full ↦ window_over t key policy l w wait seen (leb-le _ _ full) e p
    ]
  ]

  serve-view_quiet :
      (t : ℕ) (key : Str) (c : Call) (l : Limiter)
      → IsValid l
      → IsQuiet key c
      → clock (serve clock c l).1.reads ≤ t
      → view t key l ≡ none
      → view t key (serve clock c l).1 ≡ none
  serve-view_quiet t key (check_call j policy) l v q p e =
      let read = mono l.reads (check clock j policy l).1.reads (reads-check clock j policy l) in
      check-view clock t j key policy l (omega arith) ∙ e
  serve-view_quiet t key (record_call j policy) l v q p e =
      record_attempt-view_other clock t j key policy l mono v q p ∙ e
  serve-view_quiet t key (reset_call j) l v q p e = reset-view t j key l ∙ ground arith

  serve-IsValid : (c : Call) (l : Limiter) → IsValid l → IsValid (serve clock c l).1
  unfolding reset
  serve-IsValid (check_call j policy) l v = check-IsValid clock j policy l v
  serve-IsValid (record_call j policy) l v = record_attempt-IsValid clock j policy l v
  serve-IsValid (reset_call j) l v = record {
    distinct = erase-HasDistinctKeys j l.windows v.distinct;
  }

  reads-serve : (c : Call) (l : Limiter) → l.reads ≤ (serve clock c l).1.reads
  unfolding reset
  reads-serve (check_call j policy) l = reads-check clock j policy l
  reads-serve (record_call j policy) l = reads-record_attempt clock j policy l
  reads-serve (reset_call j) l = omega arith

  reads-serve_all : (cs : List Call) (l : Limiter) → l.reads ≤ (serve_all clock cs l).1.reads
  unfolding serve_all
  reads-serve_all [] l = omega arith
  reads-serve_all (c ∷ cs) l =
      omega (arith, reads-serve c l, reads-serve_all cs (serve clock c l).1)

  serve_all-view_quiet :
      (t : ℕ) (key : Str) (cs : List Call) (l : Limiter)
      → IsValid l
      → All (IsQuiet key) cs
      → clock (serve_all clock cs l).1.reads ≤ t
      → view t key l ≡ none
      → view t key (serve_all clock cs l).1 ≡ none
  unfolding serve_all
  serve_all-view_quiet t key [] l v q p e = e
  serve_all-view_quiet t key (c ∷ cs) l v (q, qs) p e =
      let l' = (serve clock c l).1 in
      let read = mono l'.reads (serve_all clock cs l').1.reads (reads-serve_all cs l') in
      serve_all-view_quiet t key cs l' (serve-IsValid c l v) qs p
        (serve-view_quiet t key c l v q (omega arith) e)

-- By a clock that never runs backwards, a caller who was told to wait, and who comes back under the
-- same key when that many seconds have gone by since the answer, gets through, whatever calls of
-- any kind came in between, if none of them recorded an attempt under that key.
pub check_again :
    (clock : ℕ → ℕ) (key : Str) (policy : RateLimitPolicy) (l : Limiter) (wait : ℕ) (cs : List Call)
    → IsMonotone clock
    → IsValid l
    → (check clock key policy l).0 ≡ failed (domain (too_many_requests_error wait))
    → All (IsQuiet key) cs
    → clock (check clock key policy l).1.reads + wait * second
      ≤ clock (serve_all clock cs (check clock key policy l).1).1.reads
    → (check clock key policy (serve_all clock cs (check clock key policy l).1).1).0 ≡ ok tt
check_again clock key policy l wait cs mono v blocked quiet late =
    let l' = (check clock key policy l).1 in
    let m = (serve_all clock cs l').1 in
    let free =
      serve_all-view_quiet clock mono (clock m.reads) key cs l' (check-IsValid clock key policy l v)
        quiet (omega arith)
        (over_after_wait clock mono (clock m.reads) key policy l wait blocked late) in
    check_admits clock key policy m (rw free (λ b. b))
