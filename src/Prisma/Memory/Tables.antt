-- ===== src/Prisma/Memory/Tables.antt =====
-- The database of src/infra/prisma/schema.prisma as lists in memory, with one instance of `Memory`
-- for each table. Texts compare exactly, and a new id is the text of a number not yet used.
use pizzaria_api.Prelude.{ap, ◌≡◌, ◌+◌, refl, true, Option, none, some, List, [], ◌∷◌, length}
use pizzaria_api.Prelude.Dict.{Str, str_eq, str_eq_refl}
use pizzaria_api.Prisma.{Client}
use pizzaria_api.Prisma.Table.{Reply, returned, raised, Laws, IsAtomic}
use pizzaria_api.Prisma.Rows.{
  UserRow, UserCreateInput, UserUpdateInput, UnitRow, UnitFields, UnitUpdateInput, TokenRow,
  TokenCreateInput, TokenUpdateInput, RoleRow, RoleCreateInput, IngredientRow,
  IngredientCreateInput,
}
use pizzaria_api.Prisma.Meaning.{
  or_old, unit_fields_after, user_meaning, unit_meaning, token_meaning, role_meaning,
  ingredient_meaning, UserUpdated, UnitUpdated, Connected,
}
use pizzaria_api.Prisma.Memory.{memory_table, memory-Laws}
use pizzaria_api.Prisma.Memory.Atomic.{memory_table-IsAtomic}

pub record Tables : Type 0 where
  pub users : List UserRow
  pub units : List UnitRow
  pub tokens : List TokenRow
  pub roles : List RoleRow
  pub ingredients : List IngredientRow

abbrev pub no_rows : Tables
no_rows = record { users = []; units = []; tokens = []; roles = []; ingredients = [] }

abbrev connected : Str → RoleRow
connected name = record { id = name; name = name; description = [] }

abbrev role_after : Option Str → Option RoleRow → Option RoleRow
role_after none old = old
role_after (some name) old = some (connected name)

abbrev new_user : UserCreateInput → Tables → UserRow
new_user i db = record {
  id = (1000 + length db.users) ∷ [];
  email = i.email;
  name = i.name;
  hashed_password = i.hashed_password;
  is_active = true;
  role = some (connected i.role_name);
  created_at = 0;
  updated_at = 0;
  deleted_at = none;
}

abbrev changed_user : UserUpdateInput → UserRow → UserRow
changed_user u old = record {
  id = old.id;
  email = or_old u.email old.email;
  name = or_old u.name old.name;
  hashed_password = or_old u.hashed_password old.hashed_password;
  is_active = old.is_active;
  role = role_after u.role_name old.role;
  created_at = old.created_at;
  updated_at = old.updated_at + 1;
  deleted_at = elim u.deleted_at [ none ↦ old.deleted_at | some t ↦ some t ];
}

abbrev new_unit : UnitFields → Tables → UnitRow
new_unit i db = record {
  id = (1000 + length db.units) ∷ [];
  fields = i;
  is_active = true;
  created_at = 0;
  updated_at = 0;
  deleted_at = none;
}

abbrev changed_unit : UnitUpdateInput → UnitRow → UnitRow
changed_unit u old = record {
  id = old.id;
  fields = unit_fields_after u old.fields;
  is_active = or_old u.is_active old.is_active;
  created_at = old.created_at;
  updated_at = old.updated_at + 1;
  deleted_at = elim u.deleted_at [ none ↦ old.deleted_at | some t ↦ some t ];
}

abbrev new_token : TokenCreateInput → Tables → TokenRow
new_token i db = record {
  id = (1000 + length db.tokens) ∷ [];
  user_id = i.user_id;
  token_hash = i.token_hash;
  expires_at = i.expires_at;
  used_at = none;
}

abbrev changed_token : TokenUpdateInput → TokenRow → TokenRow
changed_token u old = record old {
  used_at = elim u.used_at [ none ↦ old.used_at | some t ↦ some t ];
}

abbrev new_role : RoleCreateInput → Tables → RoleRow
new_role i db = record {
  id = (1000 + length db.roles) ∷ [];
  name = i.name;
  description = i.description;
}

abbrev new_ingredient : IngredientCreateInput → Tables → IngredientRow
new_ingredient i db = record {
  id = (1000 + length db.ingredients) ∷ [];
  name = i.name;
  unit = i.unit;
  unit_id = i.unit_id;
  cost_per_unit = i.cost_per_unit;
  stock_min = i.stock_min;
  stock_quantity = i.stock_quantity;
  is_active = true;
  created_at = 0;
  updated_at = 0;
  deleted_at = none;
}

-- A block that raises leaves no trace.
abbrev commit_or_roll_back : Tables → Reply (Unit {0}) × Tables → Reply (Unit {0}) × Tables
commit_or_roll_back before (returned u, after) = (returned u, after)
commit_or_roll_back before (raised e, after) = (raised e, before)

abbrev pub memory_client : Client
memory_client = record {
  Db = Tables;
  user =
      memory_table (user_meaning str_eq) (λ db. db.users) (λ rs db. record db { users = rs })
        new_user changed_user;
  unit =
      memory_table (unit_meaning str_eq) (λ db. db.units) (λ rs db. record db { units = rs })
        new_unit changed_unit;
  password_reset_token =
      memory_table (token_meaning str_eq) (λ db. db.tokens) (λ rs db. record db { tokens = rs })
        new_token changed_token;
  role =
      memory_table (role_meaning str_eq) (λ db. db.roles) (λ rs db. record db { roles = rs })
        new_role (λ u r. r);
  ingredient =
      memory_table (ingredient_meaning str_eq) (λ db. db.ingredients)
        (λ rs db. record db { ingredients = rs }) new_ingredient (λ u r. r);
  transaction = λ f db. commit_or_roll_back db (f db);
  select_one = λ db. returned tt;
  same = str_eq;
}

changed_unit-UnitUpdated :
    (u : UnitUpdateInput) (old : UnitRow) → UnitUpdated u old (changed_unit u old)
changed_unit-UnitUpdated u old = record {
  id = refl;
  fields = refl;
  active = refl;
  created = refl;
  alive = refl;
}

-- The table of units meets the laws; the rest of the database is its other tables.
pub units-Laws :
    Laws memory_client.unit (unit_meaning str_eq) (λ db. db.units) (λ db. record db { units = [] })
units-Laws =
    memory-Laws (unit_meaning str_eq) (λ db. db.units) (λ rs db. record db { units = rs }) new_unit
      changed_unit (λ db. record db { units = [] }) (λ rs db. refl) (λ rs db. refl)
      (λ i db. record { fields = refl; active = refl; alive = refl }) changed_unit-UnitUpdated

pub units-IsAtomic : IsAtomic memory_client.unit (unit_meaning str_eq) (λ db. db.units)
units-IsAtomic =
    memory_table-IsAtomic (unit_meaning str_eq) (λ db. db.units) (λ rs db. record db { units = rs })
      new_unit changed_unit (λ rs db. refl)
      (λ i db. record { fields = refl; active = refl; alive = refl }) changed_unit-UnitUpdated

role_after-Connected :
    (name : Option Str) (old : Option RoleRow) → Connected str_eq name old (role_after name old)
role_after-Connected none old = refl
role_after-Connected (some name) old = (_, refl, str_eq_refl name)

changed_user-UserUpdated :
    (u : UserUpdateInput) (old : UserRow) → UserUpdated str_eq u old (changed_user u old)
changed_user-UserUpdated u old = record {
  id = refl;
  email = refl;
  name = refl;
  password = refl;
  role = role_after-Connected u.role_name old.role;
  active = refl;
  created = refl;
  alive = refl;
}

-- So does the table of users.
pub users-Laws :
    Laws memory_client.user (user_meaning str_eq) (λ db. db.users) (λ db. record db { users = [] })
users-Laws =
    memory-Laws (user_meaning str_eq) (λ db. db.users) (λ rs db. record db { users = rs }) new_user
      changed_user (λ db. record db { users = [] }) (λ rs db. refl) (λ rs db. refl)
      (λ i db. record { email = refl; name = refl; password = refl; active = refl; alive = refl })
      changed_user-UserUpdated

-- And the table of roles.
pub roles-Laws :
    Laws memory_client.role (role_meaning str_eq) (λ db. db.roles) (λ db. record db { roles = [] })
roles-Laws =
    memory-Laws (role_meaning str_eq) (λ db. db.roles) (λ rs db. record db { roles = rs }) new_role
      (λ u r. r) (λ db. record db { roles = [] }) (λ rs db. refl) (λ rs db. refl)
      (λ i db. record { name = refl; description = refl }) (λ u old. refl)

-- The table of users again, beside that of the tokens.
pub users_beside_tokens-Laws :
    Laws memory_client.user (user_meaning str_eq) (λ db. db.users) (λ db. db.tokens)
users_beside_tokens-Laws =
    memory-Laws (user_meaning str_eq) (λ db. db.users) (λ rs db. record db { users = rs }) new_user
      changed_user (λ db. db.tokens) (λ rs db. refl) (λ rs db. refl)
      (λ i db. record { email = refl; name = refl; password = refl; active = refl; alive = refl })
      changed_user-UserUpdated

-- The table of tokens.
pub tokens-Laws :
    Laws memory_client.password_reset_token
      (token_meaning str_eq)
      (λ db. db.tokens)
      (λ db. record db { tokens = [] })
tokens-Laws =
    memory-Laws (token_meaning str_eq) (λ db. db.tokens) (λ rs db. record db { tokens = rs })
      new_token changed_token (λ db. record db { tokens = [] }) (λ rs db. refl) (λ rs db. refl)
      (λ i db. record { user = refl; hash = refl; expiry = refl; unused = refl })
      (λ u old. record { id = refl; user = refl; hash = refl; expiry = refl; used = refl })

committed :
    (before after : Tables) (p : Reply (Unit {0}) × Tables)
    → commit_or_roll_back before p ≡ (returned tt, after)
    → p ≡ (returned tt, after)
committed before after (returned u, db) h = h
committed before after (raised e, db) h = cc (ap (λ q. q.0) h)

-- A transaction that committed did what its block does.
pub transaction_commits :
    (f : Tables → Reply (Unit {0}) × Tables) (db db' : Tables)
    → memory_client.transaction f db ≡ (returned tt, db')
    → f db ≡ (returned tt, db')
transaction_commits f db db' h = committed db db' (f db) h
