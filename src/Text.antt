-- ===== src/Text.antt =====
-- What the program uses of Python's `str`: literals, `lower`, `upper`, `strip`, `replace`, and the
-- decimal text of a number. A text is the list of its code points. Case and white space of the
-- characters beyond ASCII come from Python's Unicode tables, the parameter `Unicode`.
pub mod Plain
pub mod Decimal
pub mod Parts
use Prim.Native.Char.{code}
use Prim.Native.String.{String}
use mathlib.Core.List.{reverse}
use pizzaria_api.Prelude.{
  ℕ, zero, suc, ◌+◌, ◌-◌, ◌/◌, ◌%◌, Bool, ◌&&◌, ◌||◌, [], ◌∷◌, map, ltb, leb, ◌==◌, if◌then◌else◌,
  all,
}
use pizzaria_api.Prelude.Dict.{Str}

abbrev pub codes : String → Str
codes String.[] = []
codes (String.◌∷◌ c s) = code c ∷ codes s

-- Case mapping of texts that are not ASCII, and the white space beyond ASCII.
pub record Unicode : Type 0 where
  pub lower_text : Str → Str
  pub upper_text : Str → Str
  pub is_wide_space : ℕ → Bool

unfoldable pub is_ascii : Str → Bool
is_ascii = all (λ c. ltb c 128)

unfoldable pub lower_ascii : ℕ → ℕ
lower_ascii c = if leb b'A' c && leb c b'Z' then c + 32 else c

unfoldable pub upper_ascii : ℕ → ℕ
upper_ascii c = if leb b'a' c && leb c b'z' then c - 32 else c

-- `c in value.replace(...)`: `value.replace(c, "")` for a text of one character
unfoldable pub remove_char : ℕ → Str → Str
remove_char c [] = []
remove_char c (d ∷ s) = if d == c then remove_char c s else d ∷ remove_char c s

-- Tab to carriage return, the four separators, and the space.
unfoldable pub is_ascii_space : ℕ → Bool
is_ascii_space c = (leb 9 c && leb c 13) || (leb 28 c && leb c 32)

decimal_from : ℕ → ℕ → Str → Str
decimal_from zero n acc = acc
decimal_from (suc f) n acc =
    let longer = decimal_from f (n / 10) ((48 + n % 10) ∷ acc) in
    if ltb n 10 then (48 + n) ∷ acc else longer

-- `str(n)`; a number has at most as many digits as its value plus one.
unfoldable pub decimal : ℕ → Str
unfolding decimal_from
decimal n = decimal_from (suc n) n []

module _ (u : Unicode) where
  unfoldable pub is_space : ℕ → Bool
  is_space c = if ltb c 128 then is_ascii_space c else u.is_wide_space c

  unfoldable pub lower : Str → Str
  lower s = if is_ascii s then map lower_ascii s else u.lower_text s

  unfoldable pub upper : Str → Str
  upper s = if is_ascii s then map upper_ascii s else u.upper_text s

  unfoldable pub strip_left : Str → Str
  strip_left [] = []
  strip_left (c ∷ s) = if is_space c then strip_left s else c ∷ s

  -- `s.strip()`
  unfoldable pub strip : Str → Str
  strip s = reverse (strip_left (reverse (strip_left s)))
