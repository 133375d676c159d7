-- ===== src/Units/Cnpj/Laws.antt =====
-- What the CNPJ checks of src/modules/units/unit_schema.py accept.
use pizzaria_api.Prelude.{
  All-append, All_mono, ℕ, ◌≡◌, ◌≢◌, refl, ◌↔◌, inl, inr, Bool, true, false, List, [], ◌∷◌, arith,
  ◌==◌, if◌then◌else◌, all, All, length, take, drop, take-append-drop, get_elem?, Bool-cases,
  replicate, not, ==_iff, ◌&&◌,
}
use pizzaria_api.Prelude.Dict.{Str, str_eq_iff}
use pizzaria_api.Text.{Unicode}
use pizzaria_api.Text.Plain.{IsPlain, all-All, upper_of_plain, strip_of_plain}
use pizzaria_api.Validation.{Checked, accept, reject, ◌>>=◌}
use pizzaria_api.Text.Decimal.{IsDigit}
use pizzaria_api.Units.Cnpj.Digits.{
  IsAlphanumeric, sum_from_right, Completes, value_at, check_digit-Completes, digit_at-value_at,
  first_sum, second_sum, IsAlphanumeric-of_test, test-of_IsAlphanumeric, IsDigit-of_test,
  test-of_IsDigit,
}
use pizzaria_api.Units.Cnpj.{
  char_or_zero, normalize_text, normalize_cnpj, is_digit, is_alphanumeric, first_digit,
  second_digit, digit_at, validate_cnpj, has_cnpj_form, is_repeated, normalize_and_validate_cnpj,
}

-- A CNPJ in normal form: twelve digits or capitals, then two digits, not all alike; the first of
-- the two completes the sum of the twelve, and the second the sum of the thirteen before it.
pub record IsCnpj (v : Str) : Type 0 where
  pub size : length v ≡ 14
  pub body : All IsAlphanumeric (take 12 v)
  pub digits : All IsDigit (drop 12 v)
  pub varied : v ≢ replicate 14 (char_or_zero (get_elem? v 0))
  pub first : Completes (sum_from_right (take 12 v)) (value_at v 12)
  pub second : Completes (sum_from_right (take 13 v)) (value_at v 13)

first-Completes :
    (v : Str)
    → length v ≡ 14
    → (digit_at v 12 ≡ first_digit v) ↔ Completes (sum_from_right (take 12 v)) (value_at v 12)
first-Completes v h = rw (← first_sum v h, ← digit_at-value_at v 12) (check_digit-Completes _ _)

second-Completes :
    (v : Str)
    → length v ≡ 14
    → (digit_at v 13 ≡ second_digit v) ↔ Completes (sum_from_right (take 13 v)) (value_at v 13)
second-Completes v h = rw (← second_sum v h, ← digit_at-value_at v 13) (check_digit-Completes _ _)

-- The four tests of `validate_cnpj`, each of which must pass.
ladder :
    (form repeated first second : Bool) (m n o p v w : Str)
    → (if not form
        then reject m
        else if repeated
        then reject n
        else if not first
        then reject o
        else if not second
        then reject p
        else accept v)
      ≡ accept w
    → (form ≡ true) × (repeated ≡ false) × (first ≡ true) × (second ≡ true) × (w ≡ v)
ladder form repeated first second m n o p v w h = ground arith

all-of-All {ℓ} :
    {A : Type ℓ} (p : A → Bool) (xs : List A) → All (λ x. p x ≡ true) xs → all p xs ≡ true
all-of-All p [] h = refl
all-of-All p (x ∷ xs) h = ground (arith, all-of-All p xs h.1)

three : (a b c : Bool) → (a && b && c) ≡ true → (a ≡ true) × (b ≡ true) × (c ≡ true)
three a b c h = ground arith

pub validate_cnpj_sound : (v w : Str) → validate_cnpj v ≡ accept w → (w ≡ v) × IsCnpj v
unfolding validate_cnpj
validate_cnpj_sound v w h =
    let (form, varied, first, second, same) =
      ladder (has_cnpj_form v) (is_repeated v) (digit_at v 12 == first_digit v)
        (digit_at v 13 == second_digit v) _ _ _ _ v w h in
    let (size, body, digits) =
      three (length v == 14) (all is_alphanumeric (take 12 v)) (all is_digit (drop 12 v)) form in
    (
      same,
      record {
        size = (==_iff _ _).0 size;
        body =
            All_mono _ _ (take 12 v) IsAlphanumeric-of_test
              (all-All is_alphanumeric (take 12 v) body);
        digits = All_mono _ _ (drop 12 v) IsDigit-of_test (all-All is_digit (drop 12 v) digits);
        varied = λ e. cc ((str_eq_iff v _).1 e, varied);
        first = (first-Completes v ((==_iff _ _).0 size)).0 ((==_iff _ _).0 first);
        second = (second-Completes v ((==_iff _ _).0 size)).0 ((==_iff _ _).0 second);
      },
    )

ladder_passed :
    (form repeated first second : Bool) (m n o p v : Str)
    → form ≡ true
    → repeated ≡ false
    → first ≡ true
    → second ≡ true
    → (if not form
        then reject m
        else if repeated
        then reject n
        else if not first
        then reject o
        else if not second
        then reject p
        else accept v)
      ≡ accept v
ladder_passed form repeated first second m n o p v a b c d = ground arith

form_passed : (v : Str) → IsCnpj v → has_cnpj_form v ≡ true
form_passed v c =
    rw
      (
        (==_iff (length v) 14).1 c.size,
        all-of-All is_alphanumeric (take 12 v)
            (All_mono _ _ (take 12 v) test-of_IsAlphanumeric c.body),
      )
      (all-of-All is_digit (drop 12 v) (All_mono _ _ (drop 12 v) test-of_IsDigit c.digits))

not_repeated : (v : Str) → v ≢ replicate 14 (char_or_zero (get_elem? v 0)) → is_repeated v ≡ false
not_repeated v h = elim (Bool-cases (is_repeated v)) [
  | inl same ↦ absurd (h ((str_eq_iff v _).0 same))
  | inr other ↦ other
]

-- `validate_cnpj` accepts exactly the CNPJs in normal form, and returns them as they are.
pub validate_cnpj_iff : (v : Str) → (validate_cnpj v ≡ accept v) ↔ IsCnpj v
unfolding validate_cnpj
validate_cnpj_iff v = (
  λ h. (validate_cnpj_sound v v h).1,
  λ c.
      ladder_passed (has_cnpj_form v) (is_repeated v) (digit_at v 12 == first_digit v)
        (digit_at v 13 == second_digit v) _ _ _ _ v (form_passed v c) (not_repeated v c.varied)
        ((==_iff _ _).1 ((first-Completes v c.size).1 c.first))
        ((==_iff _ _).1 ((second-Completes v c.size).1 c.second)),
)

IsPlain-of_alphanumeric : (c : ℕ) → IsAlphanumeric c → IsPlain c
IsPlain-of_alphanumeric c h = ground arith

IsPlain-of_digit : (c : ℕ) → IsDigit c → IsPlain c
IsPlain-of_digit c h = ground arith

pub IsCnpj-IsPlain : (v : Str) → IsCnpj v → All IsPlain v
IsCnpj-IsPlain v c = rw (take-append-drop 12 v) at (
    All-append IsPlain (take 12 v) (drop 12 v)
      (All_mono _ IsPlain (take 12 v) IsPlain-of_alphanumeric c.body)
      (All_mono _ IsPlain (drop 12 v) IsPlain-of_digit c.digits))

normalize_text-size : (v : Str) → length v ≡ 14 → normalize_text v ≡ accept v
unfolding normalize_text
normalize_text-size v h = rw h

-- A CNPJ in normal form passes through the whole validator unchanged.
pub normalize_and_validate_cnpj-IsCnpj :
    (u : Unicode) (v : Str) → IsCnpj v → normalize_and_validate_cnpj u v ≡ accept v
unfolding normalize_and_validate_cnpj
normalize_and_validate_cnpj-IsCnpj u v c =
    let plain = IsCnpj-IsPlain v c in
    rw (strip_of_plain u v plain, upper_of_plain u v plain, normalize_text-size v c.size)
      ((validate_cnpj_iff v).1 c)

bind_accepted : (m : Checked Str) (w : Str) → (m >>= validate_cnpj) ≡ accept w → IsCnpj w
bind_accepted (accept v) w h = let (same, c) = validate_cnpj_sound v w h in rw same c
bind_accepted (reject m) w h = cc

accepted_IsCnpj :
    (u : Unicode) (value w : Str) → normalize_and_validate_cnpj u value ≡ accept w → IsCnpj w
unfolding normalize_and_validate_cnpj
accepted_IsCnpj u value w h = bind_accepted (normalize_cnpj u value) w h

-- Whatever the field holds, what comes out of the validator is a CNPJ in normal form, and
-- validating it a second time changes nothing.
pub normalize_and_validate_cnpj_canonical :
    (u : Unicode) (value w : Str)
    → normalize_and_validate_cnpj u value ≡ accept w
    → IsCnpj w × (normalize_and_validate_cnpj u w ≡ accept w)
normalize_and_validate_cnpj_canonical u value w h =
    let c = accepted_IsCnpj u value w h in (c, normalize_and_validate_cnpj-IsCnpj u w c)
