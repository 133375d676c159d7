-- ===== src/Units/Cnpj/Punctuation.antt =====
-- The punctuated spelling of a CNPJ, `XX.XXX.XXX/XXXX-DD`, and the validator of
-- src/modules/units/unit_schema.py on it.
use pizzaria_api.Prelude.{
  All-append, All_mono, ℕ, ◌≤◌, ◌<◌, ◌≡◌, refl, ◌∙◌, ap, true, false, [], ◌∷◌, ◌++◌, arith, ◌==◌,
  All, length, take, drop, take-append-drop, All-take, All-drop,
}
use pizzaria_api.Prelude.Dict.{Str}
use pizzaria_api.Text.{Unicode, remove_char}
use pizzaria_api.Text.Plain.{
  IsPlain, remove_char-append, remove_char_absent, upper_of_plain, strip_of_plain,
}
use pizzaria_api.Validation.{accept}
use pizzaria_api.Units.Cnpj.{normalize_text, is_punctuated, normalize_and_validate_cnpj}
use pizzaria_api.Units.Cnpj.Laws.{IsCnpj, IsCnpj-IsPlain, validate_cnpj_iff}

-- The five groups with the signs between them.
unfoldable pub join_groups : Str → Str → Str → Str → Str → Str
join_groups a b c d e = a ++ (b'.' ∷ b ++ (b'.' ∷ c ++ (b'/' ∷ d ++ (b'-' ∷ e))))

unfoldable pub punctuate : Str → Str
unfolding join_groups
punctuate v =
    join_groups (take 2 v) (take 3 (drop 2 v)) (take 3 (drop 5 v)) (take 4 (drop 8 v)) (drop 12 v)

-- Without punctuation: from `0` to `Z`.
abbrev IsBare : ℕ → Type 0
IsBare c = (b'0' ≤ c) × (c ≤ b'Z')

module _ (a b c d e : Str) (ha : All IsBare a) (hb : All IsBare b) (hc : All IsBare c)
    (hd : All IsBare d) (he : All IsBare e) where
  absent : (x : ℕ) → x < b'0' → (s : Str) → All IsBare s → remove_char x s ≡ s
  absent x small s h =
      remove_char_absent x s (All_mono IsBare (λ y. (y == x) ≡ false) s (λ y p. ground arith) h)

  remove_signs :
      remove_char b'-' (remove_char b'/' (remove_char b'.' (join_groups a b c d e)))
      ≡ a ++ (b ++ (c ++ (d ++ e)))
  unfolding join_groups remove_char
  remove_signs = simp (
    remove_char-append,
    absent b'.' (omega arith) a ha,
    absent b'.' (omega arith) b hb,
    absent b'.' (omega arith) c hc,
    absent b'.' (omega arith) d hd,
    absent b'.' (omega arith) e he,
    absent b'/' (omega arith) a ha,
    absent b'/' (omega arith) b hb,
    absent b'/' (omega arith) c hc,
    absent b'/' (omega arith) d hd,
    absent b'/' (omega arith) e he,
    absent b'-' (omega arith) a ha,
    absent b'-' (omega arith) b hb,
    absent b'-' (omega arith) c hc,
    absent b'-' (omega arith) d hd,
    absent b'-' (omega arith) e he,
  )

punctuated_form : (v : Str) → length v ≡ 14 → is_punctuated (punctuate v) ≡ true
unfolding is_punctuated punctuate
punctuated_form (c0 ∷ c1 ∷ c2 ∷ c3 ∷ c4 ∷ c5 ∷ c6 ∷ c7 ∷ c8 ∷ c9 ∷ c10 ∷ c11 ∷ c12 ∷ c13 ∷ []) h =
    refl
punctuated_form v h = absurd (omega arith)

regrouped :
    (v : Str)
    → length v ≡ 14
    → take 2 v ++ (take 3 (drop 2 v) ++ (take 3 (drop 5 v) ++ (take 4 (drop 8 v) ++ drop 12 v))) ≡ v
regrouped (c0 ∷ c1 ∷ c2 ∷ c3 ∷ c4 ∷ c5 ∷ c6 ∷ c7 ∷ c8 ∷ c9 ∷ c10 ∷ c11 ∷ c12 ∷ c13 ∷ []) h = refl
regrouped v h = absurd (omega arith)

IsCnpj-IsBare : (v : Str) → IsCnpj v → All IsBare v
IsCnpj-IsBare v c = rw (take-append-drop 12 v) at (
    All-append IsBare (take 12 v) (drop 12 v)
      (All_mono _ IsBare (take 12 v) (λ x p. ground arith) c.body)
      (All_mono _ IsBare (drop 12 v) (λ x p. ground arith) c.digits))

IsPlain-of_bare : (s : Str) → All IsBare s → All IsPlain s
IsPlain-of_bare s h = All_mono IsBare IsPlain s (λ x p. omega arith) h

IsPlain-join_groups :
    (a b c d e : Str)
    → All IsPlain a
    → All IsPlain b
    → All IsPlain c
    → All IsPlain d
    → All IsPlain e
    → All IsPlain (join_groups a b c d e)
unfolding join_groups
IsPlain-join_groups a b c d e ha hb hc hd he = All-append IsPlain a _ ha (
  omega arith,
  All-append IsPlain b _ hb (
    omega arith,
    All-append IsPlain c _ hc (omega arith, All-append IsPlain d _ hd (omega arith, he)),
  ),
)

normalize_text-punctuate : (v : Str) → IsCnpj v → normalize_text (punctuate v) ≡ accept v
unfolding normalize_text punctuate
normalize_text-punctuate v k =
    let h = IsCnpj-IsBare v k in
    let P = IsBare in
    rw (punctuated_form v k.size) (
      ap accept (
        remove_signs (take 2 v) (take 3 (drop 2 v)) (take 3 (drop 5 v)) (take 4 (drop 8 v))
          (drop 12 v) (All-take P 2 v h) (All-take P 3 (drop 2 v) (All-drop P 2 v h))
          (All-take P 3 (drop 5 v) (All-drop P 5 v h)) (All-take P 4 (drop 8 v) (All-drop P 8 v h))
          (All-drop P 12 v h)
        ∙ regrouped v k.size))

punctuate-IsPlain : (v : Str) → IsCnpj v → All IsPlain (punctuate v)
unfolding punctuate
punctuate-IsPlain v k =
    let h = IsCnpj-IsPlain v k in
    let P = IsPlain in
    IsPlain-join_groups (take 2 v) (take 3 (drop 2 v)) (take 3 (drop 5 v)) (take 4 (drop 8 v))
      (drop 12 v) (All-take P 2 v h) (All-take P 3 (drop 2 v) (All-drop P 2 v h))
      (All-take P 3 (drop 5 v) (All-drop P 5 v h)) (All-take P 4 (drop 8 v) (All-drop P 8 v h))
      (All-drop P 12 v h)

-- A CNPJ written with its punctuation is accepted, and comes out in normal form.
pub normalize_and_validate_cnpj-punctuate :
    (u : Unicode) (v : Str) → IsCnpj v → normalize_and_validate_cnpj u (punctuate v) ≡ accept v
unfolding normalize_and_validate_cnpj
normalize_and_validate_cnpj-punctuate u v k =
    let plain = punctuate-IsPlain v k in
    rw
      (
        strip_of_plain u (punctuate v) plain,
        upper_of_plain u (punctuate v) plain,
        normalize_text-punctuate v k,
      )
      ((validate_cnpj_iff v).1 k)
