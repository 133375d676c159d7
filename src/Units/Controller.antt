-- ===== src/Units/Controller.antt =====
-- src/modules/units/controllers/v1/unit_controller.py: each endpoint with its dependencies. FastAPI
-- runs `require_admin` first, then reads the query and the body, and then calls the function.
pub mod Access
use pizzaria_api.Prelude.{
  ℕ, Bool, true, false, ◌&&◌, Option, none, some, leb, if◌then◌else◌, [], ◌∷◌,
}
use pizzaria_api.Prelude.Dict.{Str}
use pizzaria_api.Text.{codes}
use pizzaria_api.Errors.{Exception, request_validation, ErrorItem, exception}
use pizzaria_api.Action.{Action, Result, ok, failed, pure, ◌>>=◌, ◌>>◌}
use pizzaria_api.World.{Context, W}
use pizzaria_api.Validation.{Checked, accept, reject}
use pizzaria_api.Security.{AuthenticatedUser, require_admin}
use pizzaria_api.Units.Schema.{
  UnitBody, UnitResponse, UnitListResponse, UnitSummaryResponse, create_unit_request,
  update_unit_request,
}
use pizzaria_api.Units.Repository.{get_unit_repository}
use pizzaria_api.Units.Service
use pizzaria_api.Requests.{validated, validated_page}

module _ (ctx : Context) where
  unfoldable pub create_unit : Option Str → UnitBody → Action (W ctx) UnitResponse
  create_unit credentials body = do
    _ ← require_admin ctx credentials
    fields ← validated ctx (create_unit_request ctx.platform body)
    Service.create ctx (get_unit_repository ctx) fields

  unfoldable pub get_current_unit : Action (W ctx) UnitSummaryResponse
  get_current_unit = Service.get_current ctx (get_unit_repository ctx)

  unfoldable pub get_unit : Option Str → ℕ → Action (W ctx) UnitResponse
  get_unit credentials unit_id = do
    _ ← require_admin ctx credentials
    Service.get_by_id ctx (get_unit_repository ctx) unit_id

  unfoldable pub list_unit : Option Str → ℕ → ℕ → Action (W ctx) UnitListResponse
  list_unit credentials page page_size = do
    _ ← require_admin ctx credentials
    validated_page ctx page page_size
    Service.list_paginated ctx (get_unit_repository ctx) page page_size false

  unfoldable pub update_unit : Option Str → ℕ → UnitBody → Action (W ctx) UnitResponse
  update_unit credentials unit_id body = do
    _ ← require_admin ctx credentials
    request ← validated ctx (update_unit_request ctx.platform body)
    Service.update ctx (get_unit_repository ctx) unit_id request

  unfoldable pub delete_unit : Option Str → ℕ → Action (W ctx) (Unit {0})
  delete_unit credentials unit_id = do
    _ ← require_admin ctx credentials
    Service.delete ctx (get_unit_repository ctx) unit_id
