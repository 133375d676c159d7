-- ===== src/Units/Schema.antt =====
-- src/modules/units/unit_schema.py: the request bodies with their validators, and the responses.
-- A validator stops at the first error here; pydantic reports all of them, and accepts the same.
pub mod Accepted
use pizzaria_api.Prelude.{ℕ, Bool, true, false, ◌&&◌, none, List, [], ◌∷◌, if◌then◌else◌, map}
use pizzaria_api.Prelude.Dict.{Str, contains}
use pizzaria_api.Text.{codes, remove_char}
use pizzaria_api.Platform.{Platform}
use pizzaria_api.Validation.{
  Checked, accept, reject, ◌>>=◌, bounded, Field, Given, required, if_given, check_email, kwarg,
  is_unset,
}
use pizzaria_api.Prisma.Rows.{UnitFields, UnitUpdateInput}
use pizzaria_api.Pagination.{PaginationMeta}
use pizzaria_api.Units.Cnpj.{normalize_and_validate_cnpj}

-- `UF`
abbrev pub states : List Str
states = map codes (
    "AC" ∷ "AL" ∷ "AP" ∷ "AM" ∷ "BA" ∷ "CE" ∷ "DF" ∷ "ES" ∷ "GO" ∷ "MA" ∷ "MT" ∷ "MS" ∷ "MG" ∷ "PA"
    ∷ "PB" ∷ "PR" ∷ "PE" ∷ "PI" ∷ "RJ" ∷ "RN" ∷ "RS" ∷ "RO" ∷ "RR" ∷ "SC" ∷ "SP" ∷ "SE" ∷ "TO" ∷ [])

abbrev pub check_state : Str → Checked Str
check_state s = if contains s states then accept s else reject (codes "Input should be a UF")

-- The `Field` bounds come first, then `normalize_zip`.
unfoldable pub check_zip : Str → Checked Str
unfolding bounded
check_zip s = bounded 1 10 s >>= λ z. accept (remove_char b'-' z)

-- The JSON object of a `POST /units`; `normalize_and_validate_cnpj` refuses what is no text.
pub record UnitBody : Type 0 where
  pub name : Field Str
  pub cnpj : Field Str
  pub email : Field Str
  pub phone : Field Str
  pub street : Field Str
  pub number : Field Str
  pub neighborhood : Field Str
  pub city : Field Str
  pub state : Field Str
  pub zip : Field Str
  pub is_active : Field Bool
  pub has_other_keys : Bool

-- `UpdateUnitRequest`, with the keys that the body left out.
pub record UpdateUnitRequest : Type 0 where
  pub name : Given Str
  pub cnpj : Given Str
  pub email : Given Str
  pub phone : Given Str
  pub street : Given Str
  pub number : Given Str
  pub neighborhood : Given Str
  pub city : Given Str
  pub state : Given Str
  pub zip : Given Str
  pub is_active : Given Bool

module _ (p : Platform) where
  abbrev pub check_cnpj : Str → Checked Str
  check_cnpj = normalize_and_validate_cnpj p.unicode

  -- `CreateUnitRequest`; keys that it does not have are ignored.
  unfoldable pub create_unit_request : UnitBody → Checked UnitFields
  create_unit_request b = do
    name ← required (bounded 1 120) b.name
    cnpj ← required check_cnpj b.cnpj
    email ← required (check_email p) b.email
    phone ← required (bounded 1 20) b.phone
    street ← required (bounded 1 120) b.street
    number ← required (bounded 1 20) b.number
    neighborhood ← required (bounded 1 120) b.neighborhood
    city ← required (bounded 1 120) b.city
    state ← required check_state b.state
    zip ← required check_zip b.zip
    accept (record {
      name = name;
      cnpj = cnpj;
      email = email;
      phone = phone;
      street = street;
      number = number;
      neighborhood = neighborhood;
      city = city;
      state = state;
      zip = zip;
    })

  abbrev pub refuse_other_keys : Bool → Checked (Unit {0})
  refuse_other_keys true = reject (codes "Extra inputs are not permitted")
  refuse_other_keys false = accept tt

  -- `UpdateUnitRequest`, which forbids other keys.
  unfoldable pub update_unit_request : UnitBody → Checked UpdateUnitRequest
  update_unit_request b = do
    _ ← refuse_other_keys b.has_other_keys
    name ← if_given (bounded 1 120) b.name
    cnpj ← if_given check_cnpj b.cnpj
    email ← if_given (check_email p) b.email
    phone ← if_given (bounded 1 20) b.phone
    street ← if_given (bounded 1 120) b.street
    number ← if_given (bounded 1 20) b.number
    neighborhood ← if_given (bounded 1 120) b.neighborhood
    city ← if_given (bounded 1 120) b.city
    state ← if_given check_state b.state
    zip ← if_given check_zip b.zip
    is_active ← if_given accept b.is_active
    accept (record {
      name = name;
      cnpj = cnpj;
      email = email;
      phone = phone;
      street = street;
      number = number;
      neighborhood = neighborhood;
      city = city;
      state = state;
      zip = zip;
      is_active = is_active;
    })

-- `not data.model_dump(exclude_unset=True)`
unfoldable pub has_no_updates : UpdateUnitRequest → Bool
has_no_updates r =
    is_unset r.name
    && is_unset r.cnpj
    && is_unset r.email
    && is_unset r.phone
    && is_unset r.street
    && is_unset r.number
    && is_unset r.neighborhood
    && is_unset r.city
    && is_unset r.state
    && is_unset r.zip
    && is_unset r.is_active

-- The keyword arguments of `UnitRepository.update`, and the `UnitUpdateInput` that it builds: a key
-- for each that is not `None`.
unfoldable pub update_input : UpdateUnitRequest → UnitUpdateInput
update_input r = record {
  name = kwarg r.name;
  cnpj = kwarg r.cnpj;
  email = kwarg r.email;
  phone = kwarg r.phone;
  street = kwarg r.street;
  number = kwarg r.number;
  neighborhood = kwarg r.neighborhood;
  city = kwarg r.city;
  state = kwarg r.state;
  zip = kwarg r.zip;
  is_active = kwarg r.is_active;
  deleted_at = none;
}

pub record UnitResponse : Type 0 where
  pub id : ℕ
  pub fields : UnitFields
  pub open fields use *
  pub is_active : Bool
  pub created_at : ℕ
  pub updated_at : ℕ

pub record UnitListResponse : Type 0 where
  pub items : List UnitResponse
  pub meta : PaginationMeta

pub record UnitSummaryResponse : Type 0 where
  pub name : Str
  pub phone : Str
  pub street : Str
  pub number : Str
  pub neighborhood : Str
  pub city : Str
  pub state : Str
  pub zip : Str
