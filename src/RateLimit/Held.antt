-- ===== src/RateLimit/Held.antt =====
-- The window of one key while callers go through `check` and then `record` of
-- src/core/rate_limit.py, as auth_dependencies.py and `forgot_password` call them.
use pizzaria_api.Prelude.{
  ℕ, ◌+◌, ◌*◌, ◌≤◌, ◌<◌, ◌≡◌, refl, ◌∙◌, Bool, true, false, ◌&&◌, Option, none, some, List, [], ◌∷◌,
  arith, if◌then◌else◌, ◌⊎◌,
}
use pizzaria_api.Prelude.Dict.{Str, str_eq, str_eq_refl}
use pizzaria_api.Action.{Result, Action, ok, failed, ◌>>◌}
use pizzaria_api.RateLimit.{second, RateLimitPolicy, Window, Limiter, check, record_attempt}
use pizzaria_api.RateLimit.Views.{view, IsValid, first_window}
use pizzaria_api.RateLimit.Checks.{IsMonotone, check-view, check-IsValid, reads-check}
use pizzaria_api.RateLimit.Steps.{
  record_attempt-view-live, record_attempt-view_new, record_attempt-view_other,
  record_attempt-IsValid, reads-record_attempt,
}

abbrev pub passed {ℓ} : {A : Type ℓ} → Result A → Bool
passed (ok _) = true
passed (failed _) = false

abbrev pub count_of : Option Window → ℕ
count_of none = 0
count_of (some w) = w.count

abbrev pub Lasts : ℕ → Option Window → Type 0
Lasts end none = Unit
Lasts end (some w) = end ≤ w.expires_at

module _ (clock : ℕ → ℕ) (policy : RateLimitPolicy) where
  -- `limiter.check(key, policy); limiter.record(key, policy)`
  unfoldable pub check_then_record : Str → Action Limiter (Unit {0})
  check_then_record key = do check clock key policy; record_attempt clock key policy

  -- How often callers under `key` came through, in a sequence of callers under any keys.
  unfoldable pub admitted : Str → List Str → Limiter → ℕ × Limiter
  admitted key [] l = (0, l)
  admitted key (j ∷ js) l =
      let (r, l') = check_then_record j l in
      let (n, final) = admitted key js l' in
      ((if passed r && str_eq j key then n + 1 else n), final)

  -- At every instant before `end` the key has the window `w`, which does not end sooner.
  pub record Held (key : Str) (end : ℕ) (w : Option Window) (l : Limiter) : Type 0 where
    pub seen : (t : ℕ) → clock l.reads ≤ t → t < end → view t key l ≡ w
    pub lasts : Lasts end w
    pub valid : IsValid l

  module _ (mono : IsMonotone clock) (key : Str) (end : ℕ) where
    -- What one caller does to the window of `key`.
    pub record After (w : Option Window) (through : Bool) (l : Limiter) : Type 0 where
      pub next : Option Window
      pub held : Held key end next l
      pub counted : count_of next ≡ (if through then count_of w + 1 else count_of w)
      pub bounded : through ≡ true → (count_of w < policy.max_attempts) ⊎ (count_of w ≡ 0)

    pub check-Held :
        (j : Str) (w : Option Window) (l : Limiter)
        → Held key end w l
        → Held key end w (check clock j policy l).1
    check-Held j w l h =
        let read = mono l.reads (check clock j policy l).1.reads (reads-check clock j policy l) in
        record {
          seen =
              λ t p q. check-view clock t j key policy l (omega arith) ∙ h.seen t (omega arith) q;
          lasts = h.lasts;
          valid = check-IsValid clock j policy l h.valid;
        }

    -- A recorded attempt under another key leaves the window alone.
    pub record-Held_other :
        (j : Str) (w : Option Window) (l : Limiter)
        → str_eq j key ≡ false
        → Held key end w l
        → Held key end w (record_attempt clock j policy l).1
    record-Held_other j w l other h =
        let read =
          mono l.reads (record_attempt clock j policy l).1.reads
            (reads-record_attempt clock j policy l) in
        record {
          seen = λ t p q.
              record_attempt-view_other clock t j key policy l mono h.valid other p
              ∙ h.seen t (omega arith) q;
          lasts = h.lasts;
          valid = record_attempt-IsValid clock j policy l h.valid;
        }

    -- A first attempt under the key opens its window.
    pub record-Held_new :
        (l : Limiter)
        → end ≤ clock l.reads + policy.window_seconds * second
        → clock l.reads < end
        → Held key end none l
        → (w : Window) × Held key end (some w) (record_attempt clock key policy l).1 × (w.count ≡ 1)
    record-Held_new l long soon h =
        let (now, started, ended, views) =
          record_attempt-view_new clock key policy l mono h.valid
            (h.seen (clock l.reads) (omega arith) soon) in
        (
          first_window policy now,
          record {
            seen = λ t p q. views t key (omega arith) ∙ rw (str_eq_refl key) (ground arith);
            lasts = omega arith;
            valid = record_attempt-IsValid clock key policy l h.valid;
          },
          refl,
        )

    -- A further attempt is counted in it.
    pub record-Held_more :
        (w : Window) (l : Limiter)
        → clock l.reads < end
        → Held key end (some w) l
        → Held key end
            (some (record w { count = w.count + 1 }))
            (record_attempt clock key policy l).1
    record-Held_more w l soon h =
        let read =
          mono l.reads (record_attempt clock key policy l).1.reads
            (reads-record_attempt clock key policy l) in
        record {
          seen = λ t p q.
              record_attempt-view-live clock t key key policy l w (omega arith)
                (h.seen (clock l.reads) (omega arith) soon)
              ∙ rw (str_eq_refl key) (ground (arith, h.lasts));
          lasts = h.lasts;
          valid = record_attempt-IsValid clock key policy l h.valid;
        }
