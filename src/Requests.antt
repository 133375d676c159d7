-- ===== src/Requests.antt =====
-- How a request's query and body reach an endpoint: what a validator refuses becomes the
-- `RequestValidationError` that src/core/exceptions.py answers with a 422.
use pizzaria_api.Prelude.{ℕ, ◌&&◌, some, leb, if◌then◌else◌, [], ◌∷◌}
use pizzaria_api.Prelude.Dict.{Str}
use pizzaria_api.Text.{codes}
use pizzaria_api.Errors.{request_validation, ErrorItem, exception}
use pizzaria_api.Action.{Action, ok, failed}
use pizzaria_api.World.{Context, W}
use pizzaria_api.Platform.{Platform}
use pizzaria_api.Validation.{Checked, accept, reject}

-- The item of `errors()` for a `ValueError`, which stands under `ctx["error"]` as an object;
-- pydantic fills in the rest, the input among it.
abbrev pub error_item : Platform → Str → ErrorItem
error_item p message = record (p.refusal message) {
  msg = message;
  ctx = some ((codes "error", exception message) ∷ []);
}

module _ (ctx : Context) where
  abbrev pub validated : {A : Type 0} → Checked A → Action (W ctx) A
  validated (accept a) w = (ok a, w)
  validated (reject message) w =
      (failed (request_validation (error_item ctx.platform message ∷ [])), w)

  -- `page: Query(ge=1)` and `page_size: Query(ge=1, le=100)`
  abbrev pub validated_page : ℕ → ℕ → Action (W ctx) (Unit {0})
  validated_page page page_size = validated (
      if leb 1 page && leb 1 page_size && leb page_size 100
      then accept tt
      else reject (codes "Input out of bounds"))
