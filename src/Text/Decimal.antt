-- ===== src/Text/Decimal.antt =====
-- The decimal text of a number, which src/core/exceptions.py puts in the header `Retry-After`,
-- reads back as the number.
use pizzaria_api.Prelude.{
  ℕ, suc, zero, ◌+◌, ◌-◌, ◌*◌, ◌/◌, ◌%◌, ◌≤◌, ◌<◌, ◌≡◌, ◌∙◌, ap, [], ◌∷◌, All, arith, ltb,
  Bool-cases, inl, inr, ltb-lt,
}
use pizzaria_api.Prelude.Dict.{Str}
use pizzaria_api.Text.{decimal, decimal_from}

-- What the digits are worth after a number: `int(s)`, read from the left.
abbrev pub value_after : ℕ → Str → ℕ
value_after n [] = n
value_after n (c ∷ s) = value_after (n * 10 + (c - 48)) s

abbrev pub IsDigit : ℕ → Type 0
IsDigit c = (48 ≤ c) × (c ≤ 57)

decimal_from-value_after :
    (f n : ℕ) (acc : Str) → n < f → value_after 0 (decimal_from f n acc) ≡ value_after n acc
unfolding decimal_from
decimal_from-value_after zero n acc p = absurd (omega arith)
decimal_from-value_after (suc f) n acc p = elim (Bool-cases (ltb n 10)) [
  | inl small ↦ rw small (ap (λ k. value_after k acc) (omega arith))
  | inr large ↦
      let big : 10 ≤ n = ground arith in
      rw large (
        decimal_from-value_after f (n / 10) ((48 + n % 10) ∷ acc) (omega arith)
        ∙ ap (λ k. value_after k acc) (omega arith))
]

decimal_from-IsDigit : (f n : ℕ) (acc : Str) → All IsDigit acc → All IsDigit (decimal_from f n acc)
unfolding decimal_from
decimal_from-IsDigit zero n acc h = h
decimal_from-IsDigit (suc f) n acc h = elim (Bool-cases (ltb n 10)) [
  | inl small ↦ let little = ltb-lt n 10 small in rw small ((omega arith, omega arith), h)
  | inr large ↦
      rw large
        (decimal_from-IsDigit f (n / 10) ((48 + n % 10) ∷ acc) ((omega arith, omega arith), h))
]

-- The text is made of digits and is worth the number: the recursion never runs out of its bound.
pub decimal_lem : (n : ℕ) → All IsDigit (decimal n) × (value_after 0 (decimal n) ≡ n)
unfolding decimal
decimal_lem n =
    (decimal_from-IsDigit (suc n) n [] tt, decimal_from-value_after (suc n) n [] (omega arith))
