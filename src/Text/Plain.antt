-- ===== src/Text/Plain.antt =====
-- Texts of plain ASCII characters: what `strip`, `upper` and `replace` do to them.
use mathlib.Core.List.{reverse, reverse-reverse, reverse-cons}
use pizzaria_api.Prelude.{
  All-append, ℕ, ◌≤◌, ◌≡◌, refl, Bool, true, false, List, [], ◌∷◌, ◌++◌, map, arith, ◌==◌, all, All,
}
use pizzaria_api.Prelude.Dict.{Str}
use pizzaria_api.Text.{
  Unicode, is_ascii, upper_ascii, remove_char, is_ascii_space, is_space, upper, strip_left, strip,
}

-- From the hyphen to `Z`: the digits, the capitals and the punctuation of a CNPJ.
abbrev pub IsPlain : ℕ → Type 0
IsPlain c = (b'-' ≤ c) × (c ≤ b'Z')

All-reverse {ℓ κ} : {A : Type ℓ} (P : A → Type κ) (xs : List A) → All P xs → All P (reverse xs)
All-reverse P [] h = h
All-reverse P (x ∷ xs) h =
    rw reverse-cons (All-append P (reverse xs) (x ∷ []) (All-reverse P xs h.1) (h.0, tt))

pub all-All {ℓ} :
    {A : Type ℓ} (p : A → Bool) (xs : List A) → all p xs ≡ true → All (λ x. p x ≡ true) xs
all-All p [] h = tt
all-All p (x ∷ xs) h = ground (arith, all-All p xs)

is_ascii_of_plain : (s : Str) → All IsPlain s → is_ascii s ≡ true
unfolding is_ascii
is_ascii_of_plain [] h = refl
is_ascii_of_plain (c ∷ s) h = ground (arith, is_ascii_of_plain s h.1)

upper_ascii_of_plain : (s : Str) → All IsPlain s → map upper_ascii s ≡ s
unfolding upper_ascii
upper_ascii_of_plain [] h = refl
upper_ascii_of_plain (c ∷ s) h = ground (arith, upper_ascii_of_plain s h.1)

module _ (u : Unicode) where
  pub upper_of_plain : (s : Str) → All IsPlain s → upper u s ≡ s
  unfolding upper
  upper_of_plain s h = rw (is_ascii_of_plain s h) (upper_ascii_of_plain s h)

  strip_left_of_plain : (s : Str) → All IsPlain s → strip_left u s ≡ s
  unfolding strip_left is_space is_ascii_space
  strip_left_of_plain [] h = refl
  strip_left_of_plain (c ∷ s) h = ground arith

  pub strip_of_plain : (s : Str) → All IsPlain s → strip u s ≡ s
  unfolding strip
  strip_of_plain s h =
      rw (strip_left_of_plain s h, strip_left_of_plain (reverse s) (All-reverse IsPlain s h))
        (reverse-reverse s)

pub remove_char-append :
    (c : ℕ) (s t : Str) → remove_char c (s ++ t) ≡ remove_char c s ++ remove_char c t
unfolding remove_char
remove_char-append c [] t = refl
remove_char-append c (d ∷ s) t = ground (arith, remove_char-append c s t)

pub remove_char_absent : (c : ℕ) (s : Str) → All (λ d. (d == c) ≡ false) s → remove_char c s ≡ s
unfolding remove_char
remove_char_absent c [] h = refl
remove_char_absent c (d ∷ s) h = ground (arith, remove_char_absent c s h.1)
