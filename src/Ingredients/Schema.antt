-- ===== src/Ingredients/Schema.antt =====
-- src/modules/ingredients/ingredient_schema.py.
use pizzaria_api.Prelude.{ℕ, Bool, none, some, [], ◌∷◌, ◌++◌, if◌then◌else◌}
use pizzaria_api.Prelude.Dict.{Str, str_eq}
use pizzaria_api.Text.{Unicode, codes, strip, upper, lower}
use pizzaria_api.Platform.{Platform}
use pizzaria_api.Prisma.Rows.{IngredientRow}
use pizzaria_api.Validation.{
  Checked, accept, reject, ◌>>=◌, bounded, Field, Given, required, if_given,
}

-- `IngredientUnit`
pub data IngredientUnit : Type 0 where
  kg g l ml un : IngredientUnit

unfoldable pub unit_value : IngredientUnit → Str
unit_value kg = codes "KG"
unit_value g = codes "G"
unit_value l = codes "L"
unit_value ml = codes "ML"
unit_value un = codes "UN"

unfoldable pub check_unit : Str → Checked IngredientUnit
unfolding unit_value
check_unit s =
    if str_eq s (unit_value kg)
    then accept kg
    else if str_eq s (unit_value g)
    then accept g
    else if str_eq s (unit_value l)
    then accept l
    else if str_eq s (unit_value ml)
    then accept ml
    else if str_eq s (unit_value un)
    then accept un
    else reject (codes "Input should be 'KG', 'G', 'L', 'ML' or 'UN'")

-- A `Decimal` in thousandths.
pub data Amount : Type 0 where
  below_zero : Amount
  amount : ℕ → Amount

-- `Field(ge=0)`
unfoldable pub at_least_zero : Amount → Checked ℕ
at_least_zero below_zero = reject (codes "Input should be greater than or equal to 0")
at_least_zero (amount n) = accept n

abbrev capitalised : Unicode → Str → Checked Str
capitalised u [] = reject (codes "Name cannot be empty")
capitalised u (c ∷ s) = accept (upper u (c ∷ []) ++ lower u s)

unfoldable pub normalize_ingredient_name : Unicode → Str → Checked Str
normalize_ingredient_name u value = capitalised u (strip u value)

-- The `Field` bounds come first, then `validate_name`.
unfoldable pub check_name : Unicode → Str → Checked Str
unfolding normalize_ingredient_name
check_name u s = bounded 1 100 s >>= normalize_ingredient_name u

pub record IngredientBody : Type 0 where
  pub name : Field Str
  pub unit : Field Str
  pub cost_per_unit : Field Amount
  pub stock_min : Field Amount
  pub stock_quantity : Field Amount

pub record CreateIngredientRequest : Type 0 where
  pub name : Str
  pub unit : IngredientUnit
  pub cost_per_unit : ℕ
  pub stock_min : ℕ
  pub stock_quantity : ℕ

pub record UpdateIngredientRequest : Type 0 where
  pub name : Given Str
  pub unit : Given IngredientUnit
  pub cost_per_unit : Given ℕ
  pub stock_min : Given ℕ
  pub stock_quantity : Given ℕ

-- `Field(default=Decimal("0"), ge=0)`
abbrev or_zero : Field Amount → Checked ℕ
or_zero Field.unset = accept 0
or_zero (Field.given a) = at_least_zero a
or_zero Field.null = reject (codes "Input should be a valid value")
or_zero Field.wrong = reject (codes "Input should be a valid value")

unfoldable pub create_ingredient_request :
    Unicode → IngredientBody → Checked CreateIngredientRequest
create_ingredient_request u b = do
  name ← required (check_name u) b.name
  unit ← required check_unit b.unit
  cost_per_unit ← required at_least_zero b.cost_per_unit
  stock_min ← or_zero b.stock_min
  stock_quantity ← or_zero b.stock_quantity
  accept (record {
    name = name;
    unit = unit;
    cost_per_unit = cost_per_unit;
    stock_min = stock_min;
    stock_quantity = stock_quantity;
  })

unfoldable pub update_ingredient_request :
    Unicode → IngredientBody → Checked UpdateIngredientRequest
update_ingredient_request u b = do
  name ← if_given (check_name u) b.name
  unit ← if_given check_unit b.unit
  cost_per_unit ← if_given at_least_zero b.cost_per_unit
  stock_min ← if_given at_least_zero b.stock_min
  stock_quantity ← if_given at_least_zero b.stock_quantity
  accept (record {
    name = name;
    unit = unit;
    cost_per_unit = cost_per_unit;
    stock_min = stock_min;
    stock_quantity = stock_quantity;
  })

pub record IngredientResponse : Type 0 where
  pub id : ℕ
  pub name : Str
  pub unit : IngredientUnit
  pub unit_id : ℕ
  pub cost_per_unit : ℕ
  pub stock_min : ℕ
  pub stock_quantity : ℕ
  pub is_active : Bool
  pub created_at : ℕ
  pub updated_at : ℕ

abbrev check_uuid : Platform → Str → Checked ℕ
check_uuid p s = elim (p.parse_uuid s) [
  | none ↦ reject (codes "Input should be a valid UUID")
  | some id ↦ accept id
]

-- `IngredientResponse.model_validate` of a row; its amounts are not negative as they stand.
unfoldable pub ingredient_response : Platform → IngredientRow → Checked IngredientResponse
ingredient_response p row = do
  id ← check_uuid p row.id
  name ← bounded 1 100 row.name
  unit ← check_unit row.unit
  unit_id ← check_uuid p row.unit_id
  accept (record {
    id = id;
    name = name;
    unit = unit;
    unit_id = unit_id;
    cost_per_unit = row.cost_per_unit;
    stock_min = row.stock_min;
    stock_quantity = row.stock_quantity;
    is_active = row.is_active;
    created_at = row.created_at;
    updated_at = row.updated_at;
  })
