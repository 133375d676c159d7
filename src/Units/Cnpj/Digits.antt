-- ===== src/Units/Cnpj/Digits.antt =====
-- What a CNPJ in normal form is, apart from the code of src/modules/units/unit_schema.py, and the
-- tests of that code against it.
use pizzaria_api.Prelude.{
  ℕ, zero, suc, ◌+◌, ◌-◌, ◌*◌, ◌%◌, ◌≤◌, ◌≡◌, refl, ap, ◌⊎◌, ◌↔◌, true, List, [], ◌∷◌, arith,
  length, take, get_elem?, none, some, Option,
}
use mathlib.Core.Path.{subst}
use pizzaria_api.Prelude.Dict.{Str}
use pizzaria_api.Text.Decimal.{IsDigit}
use pizzaria_api.Units.Cnpj.{
  char_or_zero, digit_at, is_digit, is_alphanumeric, check_digit, weighted_sum, first_weights,
  second_weights,
}

-- A capital or a digit.
abbrev pub IsAlphanumeric : ℕ → Type 0
IsAlphanumeric c = ((65 ≤ c) × (c ≤ 90)) ⊎ IsDigit c

-- The sum that a check digit completes: a character counts for its code less 48, with the weights
-- 2 to 9 from the right, over and over.
abbrev pub sum_from_right : Str → ℕ
sum_from_right [] = 0
sum_from_right (c ∷ s) = (c - 48) * (2 + length s % 8) + sum_from_right s

-- The digit that completes a sum to a multiple of eleven, and zero where ten would.
abbrev pub Completes : ℕ → ℕ → Type 0
Completes sum d = (d ≤ 9) × (((sum + d) % 11 ≡ 0) ⊎ ((sum % 11 ≡ 1) × (d ≡ 0)))

abbrev digit_value : Option ℕ → ℕ
digit_value none = 0
digit_value (some c) = c - 48

-- The value of the digit at a position.
abbrev pub value_at : Str → ℕ → ℕ
value_at v i = digit_value (get_elem? v i)

-- The code takes it likewise.
digit_value_lem : (o : Option ℕ) → char_or_zero o - 48 ≡ digit_value o
digit_value_lem none = refl
digit_value_lem (some c) = refl

pub digit_at-value_at : (v : Str) (i : ℕ) → digit_at v i ≡ value_at v i
digit_at-value_at v i = digit_value_lem (get_elem? v i)

-- The check digit of the code completes the sum, and no other digit does.
pub check_digit-Completes : (sum d : ℕ) → (d ≡ check_digit sum) ↔ Completes sum d
unfolding check_digit
check_digit-Completes sum d = (λ e. ground arith, λ c. ground arith)

-- The weights for a text of this length.
abbrev weights_for : ℕ → List ℕ
weights_for zero = []
weights_for (suc n) = (2 + n % 8) ∷ weights_for n

weighted_sum-weights_for : (s : Str) → weighted_sum s (weights_for (length s)) ≡ sum_from_right s
unfolding weighted_sum
weighted_sum-weights_for [] = refl
weighted_sum-weights_for (c ∷ s) =
    ap (λ n. (c - 48) * (2 + length s % 8) + n) (weighted_sum-weights_for s)

length-take : {A : Type 0} (n : ℕ) (xs : List A) → n ≤ length xs → length (take n xs) ≡ n
length-take zero xs h = refl
length-take (suc n) [] h = absurd (omega arith)
length-take (suc n) (x ∷ xs) h = ap suc (length-take n xs (omega arith))

-- The sums of the code are these, on a text of fourteen characters.
pub first_sum :
    (v : Str) → length v ≡ 14 → weighted_sum (take 12 v) first_weights ≡ sum_from_right (take 12 v)
first_sum v h =
    subst (λ n. weighted_sum (take 12 v) (weights_for n) ≡ sum_from_right (take 12 v))
      (length-take 12 v (omega arith)) (weighted_sum-weights_for (take 12 v))

pub second_sum :
    (v : Str) → length v ≡ 14 → weighted_sum (take 13 v) second_weights ≡ sum_from_right (take 13 v)
second_sum v h =
    subst (λ n. weighted_sum (take 13 v) (weights_for n) ≡ sum_from_right (take 13 v))
      (length-take 13 v (omega arith)) (weighted_sum-weights_for (take 13 v))

pub IsAlphanumeric-of_test : (c : ℕ) → is_alphanumeric c ≡ true → IsAlphanumeric c
IsAlphanumeric-of_test c h = ground arith

pub test-of_IsAlphanumeric : (c : ℕ) → IsAlphanumeric c → is_alphanumeric c ≡ true
test-of_IsAlphanumeric c h = ground arith

pub IsDigit-of_test : (c : ℕ) → is_digit c ≡ true → IsDigit c
IsDigit-of_test c h = ground arith

pub test-of_IsDigit : (c : ℕ) → IsDigit c → is_digit c ≡ true
test-of_IsDigit c h = ground arith
