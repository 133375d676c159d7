-- ===== src/RateLimit/Refinement.antt =====
-- The limiter of src/core/rate_limit.py against the table of RateLimit/Spec.
use pizzaria_api.Prelude.{
  ℕ, ◌≤◌, ◌≡◌, refl, ◌∙◌, not, sym, Option, none, some, List, [], ◌∷◌, arith, leb, inl, inr,
  Option-cases, Bool-cases, leb-le,
}
use pizzaria_api.Prelude.Dict.{Str, lookup, erase-HasDistinctKeys}
use pizzaria_api.RateLimit.{
  RateLimitPolicy, Window, Limiter, check, record_attempt, reset, new_limiter,
}
use pizzaria_api.RateLimit.Views.{live, view, IsValid}
use pizzaria_api.RateLimit.Checks.{
  IsMonotone, check_admits, check_blocks, check-view, check-IsValid, reads-check,
}
use pizzaria_api.RateLimit.Steps.{
  record_attempt-view-live, record_attempt-view_new, record_attempt-IsValid, record_attempt-ok,
  reads-record_attempt, reset-view,
}
use pizzaria_api.RateLimit.Held.{passed}
use pizzaria_api.RateLimit.Spec.{
  Call, check_call, record_call, reset_call, serve, serve_all, Table, empty_table, is_full, answer,
  after, answer_all, InOrder,
}

pub live_later : (t t' : ℕ) (w : Option Window) → t ≤ t' → live t w ≡ none → live t' w ≡ none
live_later t t' none p h = refl
live_later t t' (some w) p h = ground arith

module _ (clock : ℕ → ℕ) where
  -- From the next reading of the clock on, the limiter shows what is left of the table.
  abbrev pub Shows : Limiter → Table → Type 0
  Shows l s = (t : ℕ) (j : Str) → clock l.reads ≤ t → view t j l ≡ live t (s j)

  -- A call took place at an instant, between its first and its last reading of the clock.
  record Step (c : Call) (l : Limiter) (s : Table) : Type 0 where
    now : ℕ
    started : clock l.reads ≤ now
    ended : now ≤ clock (serve clock c l).1.reads
    answered : passed (serve clock c l).0 ≡ answer now c s
    shows : Shows (serve clock c l).1 (after now c s)
    valid : IsValid (serve clock c l).1

  check_answer :
      (key : Str) (policy : RateLimitPolicy) (l : Limiter) (w : Option Window)
      → IsMonotone clock
      → view (clock l.reads) key l ≡ w
      → passed (check clock key policy l).0 ≡ not (is_full policy w)
  check_answer key policy l none mono e = rw (check_admits clock key policy l (rw e (λ b. b)))
  check_answer key policy l (some w) mono e = elim (Bool-cases (leb policy.max_attempts w.count)) [
    | inl full ↦
        let (wait, blocked, _, _, _) = check_blocks clock key policy l w mono e (leb-le _ _ full) in
        rw (blocked, full)
    | inr free ↦ rw (check_admits clock key policy l (rw e (λ b. ground arith)), free)
  ]

  check-Step :
      (key : Str) (policy : RateLimitPolicy) (l : Limiter) (s : Table)
      → IsMonotone clock
      → IsValid l
      → Shows l s
      → Step (check_call key policy) l s
  check-Step key policy l s mono v h =
      let read = mono l.reads (check clock key policy l).1.reads (reads-check clock key policy l) in
      record {
        now = clock l.reads;
        started = omega arith;
        ended = read;
        answered = check_answer key policy l _ mono (h (clock l.reads) key (omega arith));
        shows = λ t j p. check-view clock t key j policy l (omega arith) ∙ h t j (omega arith);
        valid = check-IsValid clock key policy l v;
      }

  record-Step_new :
      (key : Str) (policy : RateLimitPolicy) (l : Limiter) (s : Table)
      → IsMonotone clock
      → IsValid l
      → Shows l s
      → view (clock l.reads) key l ≡ none
      → Step (record_call key policy) l s
  record-Step_new key policy l s mono v h fresh =
      let (now, started, ended, views) = record_attempt-view_new clock key policy l mono v fresh in
      let gone =
        live_later (clock l.reads) now (s key) started
          (sym (h (clock l.reads) key (omega arith)) ∙ fresh) in
      record {
        now = now;
        started = started;
        ended = ended;
        answered = rw (record_attempt-ok clock key policy l);
        shows = λ t j p. views t j (omega arith) ∙ ground (arith, gone, h t j (omega arith));
        valid = record_attempt-IsValid clock key policy l v;
      }

  record-Step_more :
      (key : Str) (policy : RateLimitPolicy) (l : Limiter) (s : Table) (w : Window)
      → IsMonotone clock
      → IsValid l
      → Shows l s
      → view (clock l.reads) key l ≡ some w
      → Step (record_call key policy) l s
  record-Step_more key policy l s w mono v h e =
      let read =
        mono l.reads (record_attempt clock key policy l).1.reads
          (reads-record_attempt clock key policy l) in
      let there = sym (h (clock l.reads) key (omega arith)) ∙ e in
      record {
        now = clock l.reads;
        started = omega arith;
        ended = read;
        answered = rw (record_attempt-ok clock key policy l);
        shows = λ t j p.
            record_attempt-view-live clock t key j policy l w (omega arith) e
            ∙ ground (arith, there, h t j (omega arith));
        valid = record_attempt-IsValid clock key policy l v;
      }

  reset-Step :
      (key : Str) (l : Limiter) (s : Table) → IsValid l → Shows l s → Step (reset_call key) l s
  unfolding reset
  reset-Step key l s v h = record {
    now = clock l.reads;
    started = omega arith;
    ended = omega arith;
    answered = refl;
    shows = λ t j p. reset-view t key j l ∙ ground (arith, h t j p);
    valid = record { distinct = erase-HasDistinctKeys key l.windows v.distinct };
  }

  serve-Step :
      (c : Call) (l : Limiter) (s : Table) → IsMonotone clock → IsValid l → Shows l s → Step c l s
  serve-Step (check_call key policy) l s mono v h = check-Step key policy l s mono v h
  serve-Step (record_call key policy) l s mono v h =
      elim (Option-cases (view (clock l.reads) key l)) [
        | inl fresh ↦ record-Step_new key policy l s mono v h fresh
        | inr (w, e) ↦ record-Step_more key policy l s w mono v h e
      ]
  serve-Step (reset_call key) l s mono v h = reset-Step key l s v h

  serve_all_from :
      (cs : List Call) (l : Limiter) (s : Table) (start : ℕ)
      → IsMonotone clock
      → IsValid l
      → Shows l s
      → start ≤ clock l.reads
      → (ts : List ℕ) × InOrder start ts (clock (serve_all clock cs l).1.reads)
        × ((serve_all clock cs l).0 ≡ (answer_all ts cs s).0)
        × Shows (serve_all clock cs l).1 (answer_all ts cs s).1
  unfolding serve_all answer_all
  serve_all_from [] l s start mono v h p = ([], p, refl, h)
  serve_all_from (c ∷ cs) l s start mono v h p =
      let a = serve-Step c l s mono v h in
      let (ts, order, same, shown) =
        serve_all_from cs (serve clock c l).1 (after a.now c s) a.now mono a.valid a.shows
          a.ended in
      (a.now ∷ ts, (omega (arith, a.started), order), rw (a.answered, same), shown)

-- By a clock that never runs backwards, any sequence of calls to a new limiter answers as the table
-- answers at some instants, which are in order and within the clock's readings; and at every
-- instant from then on the limiter shows for every key what the table holds.
pub serve_all-answer_all :
    (clock : ℕ → ℕ) (cs : List Call)
    → IsMonotone clock
    → (ts : List ℕ) × InOrder (clock 0) ts (clock (serve_all clock cs new_limiter).1.reads)
      × ((serve_all clock cs new_limiter).0 ≡ (answer_all ts cs empty_table).0)
      × ((t : ℕ) (key : Str)
          → clock (serve_all clock cs new_limiter).1.reads ≤ t
          → view t key (serve_all clock cs new_limiter).1
            ≡ live t ((answer_all ts cs empty_table).1 key))
unfolding new_limiter lookup
serve_all-answer_all clock cs mono =
    serve_all_from clock cs new_limiter empty_table (clock 0) mono (record { distinct = tt })
      (λ t j p. refl) (omega arith)
