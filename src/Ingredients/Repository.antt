-- ===== src/Ingredients/Repository.antt =====
-- src/modules/ingredients/ingredient_repository.py over the Prisma client.
use pizzaria_api.Prelude.{ℕ, Bool, Option, [], ◌∷◌, ◌++◌}
use pizzaria_api.Prelude.Dict.{Str}
use pizzaria_api.Text.{codes}
use pizzaria_api.Errors.{DomainError, conflict_error}
use pizzaria_api.Action.{Action, ◌>>=◌}
use pizzaria_api.World.{Context, W, query, execute, settle_unique}
use pizzaria_api.Prisma.Rows.{IngredientRow, IngredientCond}
use pizzaria_api.Ingredients.Schema.{IngredientUnit, unit_value}

-- `IngredientRepositoryProtocol`
pub record IngredientRepositoryProtocol (ctx : Context) : Type 0 where
  pub create : Str → IngredientUnit → ℕ → ℕ → ℕ → ℕ → Action (W ctx) IngredientRow
  pub get_by_id : ℕ → Action (W ctx) (Option IngredientRow)
  pub get_by_name : Str → ℕ → Bool → Action (W ctx) (Option IngredientRow)

module _ (ctx : Context) where
  abbrev pub already_exists : Str → ℕ → DomainError
  already_exists name unit_id =
      conflict_error (
        codes "Ingredient" ++ name ++ codes " already exists in " ++ ctx.platform.uuid_text unit_id)

  unfoldable pub create : Str → IngredientUnit → ℕ → ℕ → ℕ → ℕ → Action (W ctx) IngredientRow
  create name unit unit_id cost_per_unit stock_min stock_quantity = do
    reply ← execute ctx (
        ctx.client.ingredient.create (record {
          name = name;
          unit = unit_value unit;
          unit_id = ctx.platform.uuid_text unit_id;
          cost_per_unit = cost_per_unit;
          stock_min = stock_min;
          stock_quantity = stock_quantity;
        }))
    settle_unique ctx (already_exists name unit_id) reply

  unfoldable pub get_by_id : ℕ → Action (W ctx) (Option IngredientRow)
  get_by_id ingredient_id = query ctx (
      ctx.client.ingredient.find_first (
        IngredientCond.id_is (ctx.platform.uuid_text ingredient_id)
        ∷ IngredientCond.not_deleted
        ∷ []))

  unfoldable pub get_by_name : Str → ℕ → Bool → Action (W ctx) (Option IngredientRow)
  get_by_name ingredient_name unit_id is_active = query ctx (
      ctx.client.ingredient.find_first (
        IngredientCond.name_is ingredient_name
        ∷ IngredientCond.unit_id_is (ctx.platform.uuid_text unit_id)
        ∷ IngredientCond.is_active_is is_active
        ∷ IngredientCond.not_deleted
        ∷ []))

  -- `IngredientRepository` as its protocol has it.
  abbrev pub ingredient_repository : IngredientRepositoryProtocol ctx
  ingredient_repository = record {
    create = create;
    get_by_id = get_by_id;
    get_by_name = get_by_name;
  }
