-- ===== src/Validation.antt =====
-- What a pydantic validator gives: the value, or the message of the `ValueError` that it raises.
-- Also the two bounds that `Field(min_length=…, max_length=…)` puts on a text.
use pizzaria_api.Prelude.{◌≡◌}
use pizzaria_api.Prelude.{
  ℕ, Bool, true, false, Option, none, some, leb, ◌&&◌, length, if◌then◌else◌,
}
use pizzaria_api.Prelude.Dict.{Str}
use pizzaria_api.Text.{codes}
use pizzaria_api.Platform.{Platform}

pub data Checked {ℓ} (A : Type ℓ) : Type ℓ where
  accept : A → Checked A
  reject : Str → Checked A

infixl 5 ◌>>=◌
abbrev pub ◌>>=◌ {ℓ κ} : {A : Type ℓ} {B : Type κ} → Checked A → (A → Checked B) → Checked B
accept a >>= f = f a
reject m >>= f = reject m

-- A validator that runs on a field that may be `None`, and passes `None` on.
abbrev pub optional {ℓ κ} :
    {A : Type ℓ} {B : Type κ} → (A → Checked B) → Option A → Checked (Option B)
optional check none = accept none
optional check (some a) = check a >>= λ b. accept (some b)

-- `Field(min_length=lo, max_length=hi)`
unfoldable pub bounded : ℕ → ℕ → Str → Checked Str
bounded lo hi s =
    if leb lo (length s) && leb (length s) hi
    then accept s
    else reject (codes "String length out of bounds")

-- A key of a JSON body: left out, `null`, a value of the right kind, or one of another kind.
pub data Field (A : Type 0) : Type 0 where
  unset : Field A
  null : Field A
  given : A → Field A
  wrong : Field A

-- A field of an update request with `default=None`: left out, `None`, or a value.
pub data Given (A : Type 0) : Type 0 where
  unset : Given A
  null : Given A
  given : A → Given A

-- A field with no default.
abbrev pub required : {A B : Type 0} → (A → Checked B) → Field A → Checked B
required check (Field.given a) = check a
required check Field.unset = reject (codes "Field required")
required check Field.null = reject (codes "Input should be a valid value")
required check Field.wrong = reject (codes "Input should be a valid value")

-- A field of type `T | None` with the default `None`, which is not validated.
abbrev pub if_given : {A B : Type 0} → (A → Checked B) → Field A → Checked (Given B)
if_given check Field.unset = accept Given.unset
if_given check Field.null = accept Given.null
if_given check (Field.given a) = check a >>= λ b. accept (Given.given b)
if_given check Field.wrong = reject (codes "Input should be a valid value")

-- `EmailStr`
abbrev pub check_email : Platform → Str → Checked Str
check_email p s = elim (p.parse_email s) [
  | none ↦ reject (codes "value is not a valid email address")
  | some e ↦ accept e
]

-- The value under the key after `model_dump`, as a keyword argument with the default `None`.
abbrev pub kwarg : {A : Type 0} → Given A → Option A
kwarg Given.unset = none
kwarg Given.null = none
kwarg (Given.given a) = some a

-- Whether `exclude_unset` drops the key.
abbrev pub is_unset : {A : Type 0} → Given A → Bool
is_unset Given.unset = true
is_unset Given.null = false
is_unset (Given.given _) = false

-- What a stored value is after a change that a request asks for or leaves out; `null` asks for
-- none.
abbrev pub Follows : {A : Type 0} → Given A → A → A → Type 0
Follows Given.unset old new = new ≡ old
Follows Given.null old new = new ≡ old
Follows (Given.given a) old new = new ≡ a
