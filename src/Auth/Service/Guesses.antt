-- ===== src/Auth/Service/Guesses.antt =====
-- How many passwords can be tried on one address, through `login` of
-- src/modules/auth/auth_service.py, over any sequence of logins that run one after the other.
use pizzaria_api.Prelude.{
  ℕ, ◌+◌, ◌*◌, ◌≤◌, ◌<◌, ◌≡◌, refl, ◌∙◌, Bool, true, false, ◌&&◌, Option, none, List, [], ◌∷◌,
  arith, max, Bool-cases, inl, inr, All, if◌then◌else◌,
}
use pizzaria_api.Prelude.Dict.{Str, str_eq, lookup, erase-HasDistinctKeys}
use pizzaria_api.Errors.{Exception}
use pizzaria_api.Action.{ok, failed}
use pizzaria_api.World.{Context, World}
use pizzaria_api.RateLimit.{second, Window, Limiter, reset}
use pizzaria_api.RateLimit.Views.{IsValid}
use pizzaria_api.RateLimit.Checks.{IsMonotone, reads-check}
use pizzaria_api.RateLimit.Steps.{reads-record_attempt, reset-view}
use pizzaria_api.RateLimit.Held.{count_of, Held, After, check-Held, check_then_record}
use pizzaria_api.RateLimit.Bound.{Result-cases, check_then_record_passed, step}
use pizzaria_api.Auth.Schema.{LoginDto, LoginResponseDto}
use pizzaria_api.Auth.Limits.{login_failures_per_email}
use pizzaria_api.Auth.Dependencies.{get_auth_service}
use pizzaria_api.Auth.Service.{login}
use pizzaria_api.Auth.Service.Login.{key_of}
use pizzaria_api.Auth.Service.Effects.{
  is_guess, OpensIn, Change, stopped, guessed, opened, asked, finish_login-Ends, login_admitted,
  login_refused, is_guess-asked,
}

module _ (ctx : Context) where
  -- How many logins under a key of the limiter were answered with a 401.
  unfoldable pub guesses : Str → List LoginDto → World ctx → ℕ × World ctx
  guesses key [] w = (0, w)
  guesses key (data_in ∷ rest) w =
      let (r, v) = login ctx (get_auth_service ctx) data_in w in
      let (n, final) = guesses key rest v in
      ((if is_guess r && str_eq (key_of ctx data_in) key then n + 1 else n), final)

  -- Nobody under the key sends the password of an account that the address finds.
  abbrev pub NobodyKnows : Str → List LoginDto → World ctx → Type 0
  NobodyKnows key requests w =
      All (λ d. str_eq (key_of ctx d) key ≡ true → ¬ OpensIn ctx d w.db) requests

  db-login :
      (data_in : LoginDto) (w : World ctx)
      → (login ctx (get_auth_service ctx) data_in w).1.db ≡ w.db
  db-login data_in w =
      elim (Result-cases ctx.clock login_failures_per_email (asked ctx data_in w).0) [
        | inl e ↦
            rw (login_admitted ctx data_in w e)
              (finish_login-Ends ctx data_in (asked ctx data_in w).1).0
        | inr (x, e) ↦ rw (login_refused ctx data_in w e)
      ]

  reads-reset : (key : Str) (l : Limiter) → (reset key l).1.reads ≡ l.reads
  unfolding reset
  reads-reset key l = refl

  reads-Change :
      (data_in : LoginDto) (v t : World ctx) {r : _}
      → Change ctx data_in v r t
      → v.limiter.reads ≤ t.limiter.reads
  reads-Change data_in v t (stopped a e) = rw e (omega arith)
  reads-Change data_in v t (guessed a e) =
      rw e (reads-record_attempt ctx.clock (key_of ctx data_in) login_failures_per_email v.limiter)
  reads-Change data_in v t (opened a b e) =
      rw e (omega (arith, reads-reset (key_of ctx data_in) v.limiter))

  reads-login :
      (data_in : LoginDto) (w : World ctx)
      → w.limiter.reads ≤ (login ctx (get_auth_service ctx) data_in w).1.limiter.reads
  reads-login data_in w =
      let before = reads-check ctx.clock (key_of ctx data_in) login_failures_per_email w.limiter in
      elim (Result-cases ctx.clock login_failures_per_email (asked ctx data_in w).0) [
        | inl e ↦
            let later =
              reads-Change data_in (asked ctx data_in w).1 _
                (finish_login-Ends ctx data_in (asked ctx data_in w).1).1 in
            rw (login_admitted ctx data_in w e) (omega (arith, later, before))
        | inr (x, e) ↦ rw (login_refused ctx data_in w e) before
      ]

  reads-guesses :
      (key : Str) (requests : List LoginDto) (w : World ctx)
      → w.limiter.reads ≤ (guesses key requests w).1.limiter.reads
  unfolding guesses
  reads-guesses key [] w = omega arith
  reads-guesses key (d ∷ requests) w =
      omega (
        arith,
        reads-login d w,
        reads-guesses key requests (login ctx (get_auth_service ctx) d w).1,
      )

  guess_free :
      (d : LoginDto) (w : World ctx) {x : Exception}
      → (asked ctx d w).0 ≡ failed x
      → is_guess {A = LoginResponseDto} (failed x) ≡ false
  guess_free d w e = rw e at (is_guess-asked ctx d w)

  module _ (mono : IsMonotone ctx.clock) (key : Str) (end : ℕ) where
    reset-Held_other :
        (j : Str) (w : Option Window) (l : Limiter)
        → str_eq j key ≡ false
        → Held ctx.clock login_failures_per_email key end w l
        → Held ctx.clock login_failures_per_email key end w (reset j l).1
    unfolding reset
    reset-Held_other j w l other h = record {
      seen = λ t p q. reset-view t j key l ∙ rw other (h.seen t p q);
      lasts = h.lasts;
      valid = record { distinct = erase-HasDistinctKeys j l.windows h.valid.distinct };
    }

    abbrev Counts : Bool → Option Window → Limiter → Type 0
    Counts through w l = After ctx.clock login_failures_per_email mono key end w through l

    uncounted :
        (w : Option Window) (l : Limiter)
        → Held ctx.clock login_failures_per_email key end w l
        → Counts false w l
    uncounted w l h = record { next = w; held = h; counted = refl; bounded = λ p. cc }

    Change-Counts :
        (d : LoginDto) (win : Option Window) (w t : World ctx) {r : _}
        → end ≤ ctx.clock w.limiter.reads + login_failures_per_email.window_seconds * second
        → ctx.clock t.limiter.reads < end
        → (str_eq (key_of ctx d) key ≡ true → ¬ OpensIn ctx d w.db)
        → (asked ctx d w).0 ≡ ok tt
        → Held ctx.clock login_failures_per_email key end win w.limiter
        → Change ctx d (asked ctx d w).1 r t
        → Counts (is_guess r && str_eq (key_of ctx d) key) win t.limiter
    Change-Counts d win w t long soon secret passed h (stopped a e) =
        rw (a, e)
          (uncounted win _ (
            check-Held ctx.clock login_failures_per_email mono key end (key_of ctx d) win w.limiter
              h))
    Change-Counts d win w t long soon secret passed h (guessed a e) =
        let same : check_then_record ctx.clock login_failures_per_email (key_of ctx d) w.limiter
            ≡ (ok tt, t.limiter) =
          check_then_record_passed ctx.clock login_failures_per_email (key_of ctx d) w.limiter
            passed
          ∙ rw e in
        rw a (
          rw same at (
            step ctx.clock login_failures_per_email mono key end (key_of ctx d) win w.limiter long
              (rw same soon) h))
    Change-Counts d win w t long soon secret passed h (opened a b e) =
        elim (Bool-cases (str_eq (key_of ctx d) key)) [
          | inl same ↦ absurd (secret same b)
          | inr other ↦
              rw (a, e)
                (uncounted win _ (
                  reset-Held_other (key_of ctx d) win _ other (
                    check-Held ctx.clock login_failures_per_email mono key end (key_of ctx d) win
                      w.limiter h)))
        ]

    login-Counts :
        (d : LoginDto) (win : Option Window) (w : World ctx)
        → end ≤ ctx.clock w.limiter.reads + login_failures_per_email.window_seconds * second
        → ctx.clock (login ctx (get_auth_service ctx) d w).1.limiter.reads < end
        → (str_eq (key_of ctx d) key ≡ true → ¬ OpensIn ctx d w.db)
        → Held ctx.clock login_failures_per_email key end win w.limiter
        → Counts
            (is_guess (login ctx (get_auth_service ctx) d w).0 && str_eq (key_of ctx d) key)
            win
            (login ctx (get_auth_service ctx) d w).1.limiter
    login-Counts d win w long soon secret h =
        elim (Result-cases ctx.clock login_failures_per_email (asked ctx d w).0) [
          | inl e ↦
              let same = login_admitted ctx d w e in
              rw same (
                Change-Counts d win w _ long (rw same at soon) secret e h
                  (finish_login-Ends ctx d (asked ctx d w).1).1)
          | inr (x, e) ↦
              let quiet : is_guess {A = LoginResponseDto} (failed x) ≡ false = guess_free d w e in
              rw (login_refused ctx d w e, quiet)
                (uncounted win _ (
                  check-Held ctx.clock login_failures_per_email mono key end (key_of ctx d) win
                    w.limiter h))
        ]

    guesses_from :
        (requests : List LoginDto) (win : Option Window) (w : World ctx)
        → end ≤ ctx.clock w.limiter.reads + login_failures_per_email.window_seconds * second
        → ctx.clock (guesses key requests w).1.limiter.reads < end
        → NobodyKnows key requests w
        → Held ctx.clock login_failures_per_email key end win w.limiter
        → (guesses key requests w).0 + count_of win ≤ max 5 (count_of win)
    unfolding guesses
    guesses_from [] win w long soon secret h = omega arith
    guesses_from (d ∷ requests) win w long soon (secret, secrets) h =
        let v = (login ctx (get_auth_service ctx) d w).1 in
        let before = mono w.limiter.reads v.limiter.reads (reads-login d w) in
        let rest =
          mono v.limiter.reads (guesses key requests v).1.limiter.reads
            (reads-guesses key requests v) in
        let a = login-Counts d win w long (omega arith) secret h in
        let later =
          guesses_from requests a.next v (omega arith) soon (rw (db-login d w) secrets) a.held in
        ground (arith, later, a.counted, a.bounded)

-- Of any sequence of logins, for any addresses, that run one after the other within a quarter of an
-- hour by a clock that never runs backwards, at most five under one key of the limiter are told
-- that the password was wrong, if the key has no window at the start and none of them sends the
-- right password.
pub guesses-le :
    (ctx : Context) (key : Str) (requests : List LoginDto) (w : World ctx)
    → IsMonotone ctx.clock
    → IsValid w.limiter
    → lookup key w.limiter.windows ≡ none
    → NobodyKnows ctx key requests w
    → ctx.clock (guesses ctx key requests w).1.limiter.reads
      < ctx.clock w.limiter.reads + 900 * second
    → (guesses ctx key requests w).0 ≤ login_failures_per_email.max_attempts
guesses-le ctx key requests w mono v fresh secret soon = omega (
  arith,
  guesses_from ctx mono key (ctx.clock w.limiter.reads + 900 * second) requests none w (omega arith)
      soon secret (record { seen = λ t p q. rw fresh; lasts = tt; valid = v }),
)
