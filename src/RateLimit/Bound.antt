-- ===== src/RateLimit/Bound.antt =====
-- How many callers a policy of src/core/rate_limit.py lets through, over any sequence of callers
-- within one window.
use pizzaria_api.Prelude.{
  ℕ, ◌+◌, ◌*◌, ◌≤◌, ◌<◌, ◌≡◌, refl, Bool, true, false, ◌&&◌, Option, none, some, List, [], ◌∷◌,
  arith, leb, max, Bool-cases, leb-le, inl, inr, ◌⊎◌,
}
use pizzaria_api.Prelude.Dict.{Str, str_eq, str_eq_refl, str_eq_sound, lookup}
use pizzaria_api.Errors.{Exception}
use pizzaria_api.Action.{Result, ok, failed}
use pizzaria_api.RateLimit.{second, RateLimitPolicy, Window, Limiter, check, record_attempt}
use pizzaria_api.RateLimit.Views.{IsValid}
use pizzaria_api.RateLimit.Checks.{IsMonotone, check_admits, check_blocks, reads-check}
use pizzaria_api.RateLimit.Steps.{record_attempt-ok, reads-record_attempt}
use pizzaria_api.RateLimit.Held.{
  passed, count_of, Held, After, check_then_record, admitted, check-Held, record-Held_other,
  record-Held_new, record-Held_more,
}

and-true : (b : Bool) → (b && true) ≡ b
and-true b = ground arith

and-false : (b : Bool) → (b && false) ≡ false
and-false b = ground arith

module _ (clock : ℕ → ℕ) (policy : RateLimitPolicy) where
  pub Result-cases : (r : Result (Unit {0})) → (r ≡ ok tt) ⊎ ((e : Exception) × (r ≡ failed e))
  Result-cases (ok _) = inl refl
  Result-cases (failed e) = inr (e, refl)

  pub check_then_record_passed :
      (j : Str) (l : Limiter)
      → (check clock j policy l).0 ≡ ok tt
      → check_then_record clock policy j l
        ≡ (ok tt, (record_attempt clock j policy (check clock j policy l).1).1)
  unfolding check_then_record
  check_then_record_passed j l e =
      ground (arith, record_attempt-ok clock j policy (check clock j policy l).1)

  check_then_record_stopped :
      (j : Str) (l : Limiter) {e : Exception}
      → (check clock j policy l).0 ≡ failed e
      → check_then_record clock policy j l ≡ (failed e, (check clock j policy l).1)
  unfolding check_then_record
  check_then_record_stopped j l e = ground arith

  reads-check_then_record :
      (j : Str) (l : Limiter) → l.reads ≤ (check_then_record clock policy j l).1.reads
  unfolding check_then_record
  reads-check_then_record j l = ground (
    arith,
    reads-check clock j policy l,
    reads-record_attempt clock j policy (check clock j policy l).1,
  )

  reads-admitted :
      (key : Str) (js : List Str) (l : Limiter) → l.reads ≤ (admitted clock policy key js l).1.reads
  unfolding admitted
  reads-admitted key [] l = omega arith
  reads-admitted key (j ∷ js) l = omega (
    arith,
    reads-check_then_record j l,
    reads-admitted key js (check_then_record clock policy j l).1,
  )

  module _ (mono : IsMonotone clock) (key : Str) (end : ℕ) where
    step_other :
        (j : Str) (w : Option Window) (l : Limiter)
        → str_eq j key ≡ false
        → Held clock policy key end w l
        → Held clock policy key end w (check_then_record clock policy j l).1
    step_other j w l other h =
        let h' = check-Held clock policy mono key end j w l h in
        elim (Result-cases (check clock j policy l).0) [
          | inl e ↦
              rw (check_then_record_passed j l e)
                (record-Held_other clock policy mono key end j w _ other h')
          | inr (x, e) ↦ rw (check_then_record_stopped j l e) h'
        ]

    step_blocked :
        (w : Window) (l : Limiter)
        → clock l.reads < end
        → policy.max_attempts ≤ w.count
        → Held clock policy key end (some w) l
        → After clock policy mono key end (some w) false (check_then_record clock policy key l).1
          × (passed (check_then_record clock policy key l).0 ≡ false)
    step_blocked w l soon full h =
        let (wait, e, _, _, _) =
          check_blocks clock key policy l w mono (h.seen (clock l.reads) (omega arith) soon) full in
        rw (check_then_record_stopped key l e) (
          record {
            next = some w;
            held = check-Held clock policy mono key end key (some w) l h;
            counted = refl;
            bounded = λ p. cc;
          },
          refl,
        )

    module _ (l : Limiter) (long : end ≤ clock l.reads + policy.window_seconds * second)
        (soon : clock (check_then_record clock policy key l).1.reads < end) where
      soon_before :
          (check clock key policy l).0 ≡ ok tt → clock (check clock key policy l).1.reads < end
      soon_before e =
          let l' = (check clock key policy l).1 in
          let final = (record_attempt clock key policy l').1 in
          let same = rw (check_then_record_passed key l e) at soon in
          let read = mono l'.reads final.reads (reads-record_attempt clock key policy l') in
          omega arith

      long_after : end ≤ clock (check clock key policy l).1.reads + policy.window_seconds * second
      long_after =
          let read =
            mono l.reads (check clock key policy l).1.reads (reads-check clock key policy l) in
          omega arith

      start : clock l.reads < end
      start =
          let read =
            mono l.reads (check_then_record clock policy key l).1.reads
              (reads-check_then_record key l) in
          omega arith

      step_passed :
          (w : Option Window)
          → (check clock key policy l).0 ≡ ok tt
          → (count_of w < policy.max_attempts) ⊎ (count_of w ≡ 0)
          → Held clock policy key end w l
          → After clock policy mono key end w true (check_then_record clock policy key l).1
      step_passed none e room h =
          let (w, held, one) =
            record-Held_new clock policy mono key end (check clock key policy l).1 long_after
              (soon_before e) (check-Held clock policy mono key end key none l h) in
          rw (check_then_record_passed key l e)
            (record { next = some w; held = held; counted = omega arith; bounded = λ p. room })
      step_passed (some w) e room h = rw (check_then_record_passed key l e) (record {
        next = some (record w { count = w.count + 1 });
        held =
            record-Held_more clock policy mono key end w (check clock key policy l).1
              (soon_before e) (check-Held clock policy mono key end key (some w) l h);
        counted = refl;
        bounded = λ p. room;
      })

      step_self :
          (w : Option Window)
          → Held clock policy key end w l
          → After clock policy mono key end w
              (passed (check_then_record clock policy key l).0)
              (check_then_record clock policy key l).1
      step_self none h =
          let e =
            check_admits clock key policy l
              (rw (h.seen (clock l.reads) (omega arith) start) (λ b. b)) in
          rw (check_then_record_passed key l e)
            (rw (check_then_record_passed key l e) at (step_passed none e (inr refl) h))
      step_self (some w) h = elim (Bool-cases (leb policy.max_attempts w.count)) [
        | inl full ↦
            let (after, stopped) = step_blocked w l start (omega (arith, leb-le _ _ full)) h in
            rw stopped after
        | inr free ↦
            let room : w.count < policy.max_attempts = ground arith in
            let e =
              check_admits clock key policy l
                (rw (h.seen (clock l.reads) (omega arith) start) (λ b. omega arith)) in
            let pass : passed (check_then_record clock policy key l).0 ≡ true =
              rw (check_then_record_passed key l e) in
            rw pass (step_passed (some w) e (inl room) h)
      ]

    -- What any caller does to the window of `key`.
    pub step :
        (j : Str) (w : Option Window) (l : Limiter)
        → end ≤ clock l.reads + policy.window_seconds * second
        → clock (check_then_record clock policy j l).1.reads < end
        → Held clock policy key end w l
        → After clock policy mono key end w
            (passed (check_then_record clock policy j l).0 && str_eq j key)
            (check_then_record clock policy j l).1
    step j w l long soon h = elim (Bool-cases (str_eq j key)) [
      | inl same ↦
          let e = str_eq_sound j key same in
          rw e (rw (str_eq_refl key, and-true) (step_self l long (rw e at soon) w h))
      | inr other ↦
          rw (other, and-false)
            (record {
              next = w;
              held = step_other j w l other h;
              counted = refl;
              bounded = λ p. cc;
            })
    ]

    -- From any window that is held, no more come through than it has room for.
    admitted_from :
        (js : List Str) (w : Option Window) (l : Limiter)
        → 0 < policy.max_attempts
        → end ≤ clock l.reads + policy.window_seconds * second
        → clock (admitted clock policy key js l).1.reads < end
        → Held clock policy key end w l
        → (admitted clock policy key js l).0 + count_of w ≤ max policy.max_attempts (count_of w)
    unfolding admitted
    admitted_from [] w l pos long soon h = omega arith
    admitted_from (j ∷ js) w l pos long soon h =
        let l' = (check_then_record clock policy j l).1 in
        let read = mono l.reads l'.reads (reads-check_then_record j l) in
        let rest =
          mono l'.reads (admitted clock policy key js l').1.reads (reads-admitted key js l') in
        let after = step j w l long (omega arith) h in
        let later = admitted_from js after.next l' pos (omega arith) soon after.held in
        ground (arith, later, after.counted, after.bounded)

-- Of any sequence of callers that goes through `check` and then `record` within the length of one
-- window, by a clock that never runs backwards, at most `max_attempts` come through under one key,
-- if the key has no window at the start and the policy admits anybody.
pub admitted-le-max_attempts :
    (clock : ℕ → ℕ) (policy : RateLimitPolicy) (key : Str) (js : List Str) (l : Limiter)
    → IsMonotone clock
    → IsValid l
    → 0 < policy.max_attempts
    → lookup key l.windows ≡ none
    → clock (admitted clock policy key js l).1.reads
      < clock l.reads + policy.window_seconds * second
    → (admitted clock policy key js l).0 ≤ policy.max_attempts
admitted-le-max_attempts clock policy key js l mono v pos fresh soon = omega (
  arith,
  admitted_from clock policy mono key (clock l.reads + policy.window_seconds * second) js none l pos
      (omega arith) soon (record { seen = λ t p q. rw fresh; lasts = tt; valid = v }),
)
