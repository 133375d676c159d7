-- ===== src/Units/Controller/Access.antt =====
-- Who may call the endpoints of src/modules/units/controllers/v1/unit_controller.py.
use pizzaria_api.Prelude.{ℕ, Option, false}
use pizzaria_api.Prelude.Dict.{Str}
use pizzaria_api.Action.{◌>>=◌, ◌>>◌}
use pizzaria_api.World.{Context, World}
use pizzaria_api.Security.Tokens.{drawn}
use pizzaria_api.Security.Guards.{AdminOnly, require_admin-AdminOnly}
use pizzaria_api.Requests.{validated, validated_page}
use pizzaria_api.Units.Schema.{UnitBody, create_unit_request, update_unit_request}
use pizzaria_api.Units.Repository.{get_unit_repository}
use pizzaria_api.Units.Service
use pizzaria_api.Units.Controller.{create_unit, get_unit, list_unit, update_unit, delete_unit}

-- Creating, reading, listing, changing and deleting a unit go on to validate the body or the page
-- and to call the service exactly for an authentic access token with the role ADMIN. A token that
-- proves nobody gets a 401 and one of another role a 403, and then the database, the counters and
-- the outbox are as before.
pub units-AdminOnly :
    (ctx : Context) (credentials : Option Str) (unit_id page page_size : ℕ) (body : UnitBody)
    (w : World ctx)
    → AdminOnly ctx credentials w
        ((validated ctx (create_unit_request ctx.platform body)
            >>= Service.create ctx (get_unit_repository ctx))
          (drawn w))
        (create_unit ctx credentials body w)
      × AdminOnly ctx credentials w
          (Service.get_by_id ctx (get_unit_repository ctx) unit_id (drawn w))
          (get_unit ctx credentials unit_id w)
      × AdminOnly ctx credentials w
          ((validated_page ctx page page_size
              >> Service.list_paginated ctx (get_unit_repository ctx) page page_size false)
            (drawn w))
          (list_unit ctx credentials page page_size w)
      × AdminOnly ctx credentials w
          ((validated ctx (update_unit_request ctx.platform body)
              >>= Service.update ctx (get_unit_repository ctx) unit_id)
            (drawn w))
          (update_unit ctx credentials unit_id body w)
      × AdminOnly ctx credentials w
          (Service.delete ctx (get_unit_repository ctx) unit_id (drawn w))
          (delete_unit ctx credentials unit_id w)
unfolding create_unit get_unit list_unit update_unit delete_unit
units-AdminOnly ctx credentials unit_id page page_size body w = (
  require_admin-AdminOnly ctx credentials _ w,
  require_admin-AdminOnly ctx credentials _ w,
  require_admin-AdminOnly ctx credentials _ w,
  require_admin-AdminOnly ctx credentials _ w,
  require_admin-AdminOnly ctx credentials _ w,
)
