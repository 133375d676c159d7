-- ===== src/Prisma/Rows.antt =====
-- The models of src/infra/prisma/schema.prisma, as the client returns them and takes them. An id is
-- a text, an instant a number; a key that an update leaves out is `none`.
use pizzaria_api.Prelude.{ℕ, Bool, Option, List}
use pizzaria_api.Prelude.Dict.{Str}

pub record RoleRow : Type 0 where
  pub id : Str
  pub name : Str
  pub description : Str

pub record RoleCreateInput : Type 0 where
  pub name : Str
  pub description : Str

pub data RoleCond : Type 0 where
  name_is : Str → RoleCond
  name_in : List Str → RoleCond

-- `role` is there where the call asks to include it.
pub record UserRow : Type 0 where
  pub id : Str
  pub email : Str
  pub name : Str
  pub hashed_password : Str
  pub is_active : Bool
  pub role : Option RoleRow
  pub created_at : ℕ
  pub updated_at : ℕ
  pub deleted_at : Option ℕ

-- `"role": {"connect": {"name": role}}`
pub record UserCreateInput : Type 0 where
  pub email : Str
  pub name : Str
  pub hashed_password : Str
  pub role_name : Str

pub record UserUpdateInput : Type 0 where
  pub email : Option Str
  pub name : Option Str
  pub hashed_password : Option Str
  pub role_name : Option Str
  pub deleted_at : Option ℕ

pub data UserCond : Type 0 where
  id_is : Str → UserCond
  email_is : Str → UserCond
  role_is : Str → UserCond
  not_deleted : UserCond

-- What `UnitCreateInput` holds, and a `Unit` besides its id, its state and its instants.
pub record UnitFields : Type 0 where
  pub name : Str
  pub cnpj : Str
  pub email : Str
  pub phone : Str
  pub street : Str
  pub number : Str
  pub neighborhood : Str
  pub city : Str
  pub state : Str
  pub zip : Str

pub record UnitRow : Type 0 where
  pub id : Str
  pub fields : UnitFields
  pub open fields use *
  pub is_active : Bool
  pub created_at : ℕ
  pub updated_at : ℕ
  pub deleted_at : Option ℕ

pub record UnitUpdateInput : Type 0 where
  pub name : Option Str
  pub cnpj : Option Str
  pub email : Option Str
  pub phone : Option Str
  pub street : Option Str
  pub number : Option Str
  pub neighborhood : Option Str
  pub city : Option Str
  pub state : Option Str
  pub zip : Option Str
  pub is_active : Option Bool
  pub deleted_at : Option ℕ

pub data UnitCond : Type 0 where
  id_is : Str → UnitCond
  cnpj_is : Str → UnitCond
  is_active_is : Bool → UnitCond
  not_deleted : UnitCond

pub record TokenRow : Type 0 where
  pub id : Str
  pub user_id : Str
  pub token_hash : Str
  pub expires_at : ℕ
  pub used_at : Option ℕ

pub record TokenCreateInput : Type 0 where
  pub user_id : Str
  pub token_hash : Str
  pub expires_at : ℕ

pub record TokenUpdateInput : Type 0 where
  pub used_at : Option ℕ

pub data TokenCond : Type 0 where
  user_id_is : Str → TokenCond
  token_hash_is : Str → TokenCond

-- Amounts are in thousandths, as the finest column has three decimals.
pub record IngredientRow : Type 0 where
  pub id : Str
  pub name : Str
  pub unit : Str
  pub unit_id : Str
  pub cost_per_unit : ℕ
  pub stock_min : ℕ
  pub stock_quantity : ℕ
  pub is_active : Bool
  pub created_at : ℕ
  pub updated_at : ℕ
  pub deleted_at : Option ℕ

pub record IngredientCreateInput : Type 0 where
  pub name : Str
  pub unit : Str
  pub unit_id : Str
  pub cost_per_unit : ℕ
  pub stock_min : ℕ
  pub stock_quantity : ℕ

pub data IngredientCond : Type 0 where
  id_is : Str → IngredientCond
  name_is : Str → IngredientCond
  unit_id_is : Str → IngredientCond
  is_active_is : Bool → IngredientCond
  not_deleted : IngredientCond
