-- ===== src/Units/Cnpj.antt =====
-- src/modules/units/unit_schema.py: `normalize_cnpj`, `validate_cnpj` and their composition.
pub mod Digits
pub mod Laws
pub mod Punctuation
use pizzaria_api.Prelude.{
  ℕ, zero, suc, ◌+◌, ◌-◌, ◌*◌, ◌%◌, Bool, true, false, ◌&&◌, ◌||◌, not, Option, none, some, List,
  [], ◌∷◌, ltb, leb, ◌==◌, if◌then◌else◌, length, take, drop, all, get_elem?, replicate,
}
use pizzaria_api.Prelude.Dict.{Str, str_eq}
use pizzaria_api.Text.{Unicode, codes, remove_char, strip, upper}
use pizzaria_api.Validation.{Checked, accept, reject, ◌>>=◌}

-- `value[i] == c`, for an index below the length
abbrev pub char_is : Str → ℕ → ℕ → Bool
char_is s i c = elim (get_elem? s i) [ none ↦ false | some d ↦ d == c ]

-- `value[i]` where the length is known, of which the source takes `ord`
abbrev pub char_or_zero : Option ℕ → ℕ
char_or_zero none = 0
char_or_zero (some c) = c

unfoldable pub is_punctuated : Str → Bool
is_punctuated v =
    length v == 18 && char_is v 2 b'.' && char_is v 6 b'.' && char_is v 10 b'/' && char_is v 15 b'-'

unfoldable pub normalize_text : Str → Checked Str
unfolding is_punctuated
normalize_text v =
    if is_punctuated v
    then accept (remove_char b'-' (remove_char b'/' (remove_char b'.' v)))
    else if length v == 14
    then accept v
    else reject (codes "Invalid CNPJ format")

unfoldable pub normalize_cnpj : Unicode → Str → Checked Str
unfolding normalize_text
normalize_cnpj u value = normalize_text (upper u (strip u value))

abbrev pub is_digit : ℕ → Bool
is_digit c = leb b'0' c && leb c b'9'

abbrev pub is_alphanumeric : ℕ → Bool
is_alphanumeric c = (leb b'A' c && leb c b'Z') || is_digit c

abbrev pub first_weights : List ℕ
first_weights = 5 ∷ 4 ∷ 3 ∷ 2 ∷ 9 ∷ 8 ∷ 7 ∷ 6 ∷ 5 ∷ 4 ∷ 3 ∷ 2 ∷ []

abbrev pub second_weights : List ℕ
second_weights = 6 ∷ 5 ∷ 4 ∷ 3 ∷ 2 ∷ 9 ∷ 8 ∷ 7 ∷ 6 ∷ 5 ∷ 4 ∷ 3 ∷ 2 ∷ []

-- The sum over `zip(text, weights, strict=True)`; the lengths agree where it is called.
unfoldable pub weighted_sum : Str → List ℕ → ℕ
weighted_sum [] ws = 0
weighted_sum (c ∷ s) [] = 0
weighted_sum (c ∷ s) (w ∷ ws) = (c - 48) * w + weighted_sum s ws

unfoldable pub check_digit : ℕ → ℕ
check_digit sum = if ltb (sum % 11) 2 then 0 else 11 - sum % 11

abbrev pub first_digit : Str → ℕ
first_digit v = check_digit (weighted_sum (take 12 v) first_weights)

abbrev pub second_digit : Str → ℕ
second_digit v = check_digit (weighted_sum (take 13 v) second_weights)

-- `int(value[i])` of a decimal digit
abbrev pub digit_at : Str → ℕ → ℕ
digit_at v i = char_or_zero (get_elem? v i) - 48

abbrev pub has_cnpj_form : Str → Bool
has_cnpj_form v = length v == 14 && all is_alphanumeric (take 12 v) && all is_digit (drop 12 v)

-- `value == value[0] * 14`
abbrev pub is_repeated : Str → Bool
is_repeated v = str_eq v (replicate 14 (char_or_zero (get_elem? v 0)))

unfoldable pub validate_cnpj : Str → Checked Str
validate_cnpj v =
    if not (has_cnpj_form v)
    then reject (codes "CNPJ must contain 12 alphanumeric characters and 2 digits")
    else if is_repeated v
    then reject (codes "Invalid CNPJ")
    else if not (digit_at v 12 == first_digit v)
    then reject (codes "Invalid CNPJ")
    else if not (digit_at v 13 == second_digit v)
    then reject (codes "Invalid CNPJ")
    else accept v

unfoldable pub normalize_and_validate_cnpj : Unicode → Str → Checked Str
unfolding normalize_cnpj validate_cnpj
normalize_and_validate_cnpj u value = normalize_cnpj u value >>= validate_cnpj
