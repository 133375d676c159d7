-- ===== src/Prisma.antt =====
-- The Prisma client, which the build generates from src/infra/prisma/schema.prisma: a parameter of
-- the model. The rows are the models of the schema; a delegate has the calls that the repositories
-- make on one table. What the theorems rely on is in `Table.Laws`.
pub mod Table
pub mod Rows
pub mod Meaning
pub mod Absence
pub mod Memory
use pizzaria_api.Prelude.{Bool}
use pizzaria_api.Prelude.Dict.{Str}
use Table.{Reply, Delegate}
use Rows.{
  UserRow, UserCreateInput, UserUpdateInput, UserCond, UnitRow, UnitFields, UnitUpdateInput,
  UnitCond, TokenRow, TokenCreateInput, TokenUpdateInput, TokenCond, RoleRow, RoleCreateInput,
  RoleCond, IngredientRow, IngredientCreateInput, IngredientCond,
}

-- `Prisma`; a table that the program never updates has the empty update.
pub record Client : Type 1 where
  pub Db : Type 0
  pub user : Delegate Db UserRow UserCreateInput UserUpdateInput UserCond
  pub unit : Delegate Db UnitRow UnitFields UnitUpdateInput UnitCond
  pub password_reset_token : Delegate Db TokenRow TokenCreateInput TokenUpdateInput TokenCond
  pub role : Delegate Db RoleRow RoleCreateInput (Unit {0}) RoleCond
  pub ingredient : Delegate Db IngredientRow IngredientCreateInput (Unit {0}) IngredientCond
  -- `async with self._db.tx() as tx`, with the block as its argument
  pub transaction : (Db → Reply (Unit {0}) × Db) → Db → Reply (Unit {0}) × Db
  -- `query_raw("SELECT 1")`
  pub select_one : Db → Reply (Unit {0})
  -- how the database's collation compares texts
  pub same : Str → Str → Bool
