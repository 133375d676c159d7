-- ===== src/Prisma/Meaning.antt =====
-- What src/infra/prisma/schema.prisma says of each table: the conditions, the unique indices, the
-- defaults of a new row, and what an update keeps. `same` compares texts as the database does.
use pizzaria_api.Prelude.{
  ◌≡◌, Bool, true, false, ◌&&◌, not, Option, none, some, List, [], ◌∷◌, ◌||◌,
}
use pizzaria_api.Prelude.Dict.{Str}
use pizzaria_api.Validation.{Given, kwarg, Follows}
use pizzaria_api.Prisma.Table.{Meaning}
use pizzaria_api.Prisma.Rows.{
  UserRow, UserCreateInput, UserUpdateInput, UserCond, UnitRow, UnitFields, UnitUpdateInput,
  UnitCond, TokenRow, TokenCreateInput, TokenUpdateInput, TokenCond, RoleRow, RoleCreateInput,
  RoleCond, IngredientRow, IngredientCreateInput, IngredientCond,
}

abbrev pub is_none {ℓ} : {A : Type ℓ} → Option A → Bool
is_none none = true
is_none (some _) = false

-- The value of a key that may be left out of an update.
abbrev pub or_old {ℓ} : {A : Type ℓ} → Option A → A → A
or_old none old = old
or_old (some new) old = new

-- An update of what a request gives follows the request.
pub or_old-Follows :
    {A : Type 0} (given_ : Given A) (old new : A)
    → new ≡ or_old (kwarg given_) old
    → Follows given_ old new
or_old-Follows Given.unset old new e = e
or_old-Follows Given.null old new e = e
or_old-Follows (Given.given a) old new e = e

abbrev pub same_bool : Bool → Bool → Bool
same_bool true b = b
same_bool false b = not b

-- A new unit has the fields of the input, is active and is not deleted.
pub record UnitCreated (i : UnitFields) (r : UnitRow) : Type 0 where
  pub fields : r.fields ≡ i
  pub active : r.is_active ≡ true
  pub alive : r.deleted_at ≡ none

abbrev pub unit_fields_after : UnitUpdateInput → UnitFields → UnitFields
unit_fields_after u old = record {
  name = or_old u.name old.name;
  cnpj = or_old u.cnpj old.cnpj;
  email = or_old u.email old.email;
  phone = or_old u.phone old.phone;
  street = or_old u.street old.street;
  number = or_old u.number old.number;
  neighborhood = or_old u.neighborhood old.neighborhood;
  city = or_old u.city old.city;
  state = or_old u.state old.state;
  zip = or_old u.zip old.zip;
}

-- An update changes the keys that it names, and the instant of the last change.
pub record UnitUpdated (u : UnitUpdateInput) (old new : UnitRow) : Type 0 where
  pub id : new.id ≡ old.id
  pub fields : new.fields ≡ unit_fields_after u old.fields
  pub active : new.is_active ≡ or_old u.is_active old.is_active
  pub created : new.created_at ≡ old.created_at
  pub alive : new.deleted_at ≡ elim u.deleted_at [ none ↦ old.deleted_at | some t ↦ some t ]

pub record UserCreated (i : UserCreateInput) (r : UserRow) : Type 0 where
  pub email : r.email ≡ i.email
  pub name : r.name ≡ i.name
  pub password : r.hashed_password ≡ i.hashed_password
  pub active : r.is_active ≡ true
  pub alive : r.deleted_at ≡ none

-- An update that connects a role by its name leaves the role of that name, and else the old one.
abbrev pub Connected : (Str → Str → Bool) → Option Str → Option RoleRow → Option RoleRow → Type 0
Connected same none old new = new ≡ old
Connected same (some name) old new =
    (role : RoleRow) × (new ≡ some role) × (same role.name name ≡ true)

pub record UserUpdated (same : Str → Str → Bool) (u : UserUpdateInput) (old new : UserRow)
    : Type 0 where
  pub id : new.id ≡ old.id
  pub email : new.email ≡ or_old u.email old.email
  pub name : new.name ≡ or_old u.name old.name
  pub password : new.hashed_password ≡ or_old u.hashed_password old.hashed_password
  pub role : Connected same u.role_name old.role new.role
  pub active : new.is_active ≡ old.is_active
  pub created : new.created_at ≡ old.created_at
  pub alive : new.deleted_at ≡ elim u.deleted_at [ none ↦ old.deleted_at | some t ↦ some t ]

pub record TokenCreated (i : TokenCreateInput) (r : TokenRow) : Type 0 where
  pub user : r.user_id ≡ i.user_id
  pub hash : r.token_hash ≡ i.token_hash
  pub expiry : r.expires_at ≡ i.expires_at
  pub unused : r.used_at ≡ none

pub record TokenUpdated (u : TokenUpdateInput) (old new : TokenRow) : Type 0 where
  pub id : new.id ≡ old.id
  pub user : new.user_id ≡ old.user_id
  pub hash : new.token_hash ≡ old.token_hash
  pub expiry : new.expires_at ≡ old.expires_at
  pub used : new.used_at ≡ elim u.used_at [ none ↦ old.used_at | some t ↦ some t ]

pub record RoleCreated (i : RoleCreateInput) (r : RoleRow) : Type 0 where
  pub name : r.name ≡ i.name
  pub description : r.description ≡ i.description

pub record IngredientCreated (i : IngredientCreateInput) (r : IngredientRow) : Type 0 where
  pub name : r.name ≡ i.name
  pub unit : r.unit ≡ i.unit
  pub place : r.unit_id ≡ i.unit_id
  pub cost : r.cost_per_unit ≡ i.cost_per_unit
  pub least : r.stock_min ≡ i.stock_min
  pub quantity : r.stock_quantity ≡ i.stock_quantity
  pub active : r.is_active ≡ true
  pub alive : r.deleted_at ≡ none

module _ (same : Str → Str → Bool) where
  abbrev pub user_holds : UserCond → UserRow → Bool
  user_holds (UserCond.id_is i) r = same r.id i
  user_holds (UserCond.email_is e) r = same r.email e
  user_holds (UserCond.role_is n) r = elim r.role [ none ↦ false | some role ↦ same role.name n ]
  user_holds UserCond.not_deleted r = is_none r.deleted_at

  abbrev pub unit_holds : UnitCond → UnitRow → Bool
  unit_holds (UnitCond.id_is i) r = same r.id i
  unit_holds (UnitCond.cnpj_is c) r = same r.cnpj c
  unit_holds (UnitCond.is_active_is b) r = same_bool b r.is_active
  unit_holds UnitCond.not_deleted r = is_none r.deleted_at

  abbrev pub token_holds : TokenCond → TokenRow → Bool
  token_holds (TokenCond.user_id_is i) r = same r.user_id i
  token_holds (TokenCond.token_hash_is h) r = same r.token_hash h

  abbrev pub any_same : List Str → Str → Bool
  any_same [] n = false
  any_same (m ∷ ms) n = same n m || any_same ms n

  abbrev pub role_holds : RoleCond → RoleRow → Bool
  role_holds (RoleCond.name_is n) r = same r.name n
  role_holds (RoleCond.name_in ns) r = any_same ns r.name

  abbrev pub ingredient_holds : IngredientCond → IngredientRow → Bool
  ingredient_holds (IngredientCond.id_is i) r = same r.id i
  ingredient_holds (IngredientCond.name_is n) r = same r.name n
  ingredient_holds (IngredientCond.unit_id_is i) r = same r.unit_id i
  ingredient_holds (IngredientCond.is_active_is b) r = same_bool b r.is_active
  ingredient_holds IngredientCond.not_deleted r = is_none r.deleted_at

  abbrev pub unit_meaning : Meaning UnitRow UnitFields UnitUpdateInput UnitCond
  unit_meaning = record {
    holds = unit_holds;
    has_id = λ i r. same r.id i;
    clashes = λ i r. same r.cnpj i.cnpj;
    Created = UnitCreated;
    Updated = UnitUpdated;
  }

  abbrev pub user_meaning : Meaning UserRow UserCreateInput UserUpdateInput UserCond
  user_meaning = record {
    holds = user_holds;
    has_id = λ i r. same r.id i;
    clashes = λ i r. same r.email i.email;
    Created = UserCreated;
    Updated = UserUpdated same;
  }

  abbrev pub token_meaning : Meaning TokenRow TokenCreateInput TokenUpdateInput TokenCond
  token_meaning = record {
    holds = token_holds;
    has_id = λ i r. same r.id i;
    clashes = λ i r. same r.token_hash i.token_hash;
    Created = TokenCreated;
    Updated = TokenUpdated;
  }

  abbrev pub role_meaning : Meaning RoleRow RoleCreateInput (Unit {0}) RoleCond
  role_meaning = record {
    holds = role_holds;
    has_id = λ i r. same r.id i;
    clashes = λ i r. same r.name i.name;
    Created = RoleCreated;
    Updated = λ u old new. new ≡ old;
  }

  abbrev pub ingredient_meaning :
      Meaning IngredientRow IngredientCreateInput (Unit {0}) IngredientCond
  ingredient_meaning = record {
    holds = ingredient_holds;
    has_id = λ i r. same r.id i;
    clashes = λ i r. same r.name i.name && same r.unit_id i.unit_id;
    Created = IngredientCreated;
    Updated = λ u old new. new ≡ old;
  }
