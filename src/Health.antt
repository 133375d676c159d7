-- ===== src/Health.antt =====
-- src/modules/health: liveness and readiness, with the repository behind its protocol.
pub mod Ready
use pizzaria_api.Prelude.{Bool, true, false}
use pizzaria_api.Prelude.Dict.{Str}
use pizzaria_api.Text.{codes}
use pizzaria_api.Errors.{service_unavailable_error}
use pizzaria_api.Action.{Action, ok, pure, raise, ◌>>=◌, ◌>>◌}
use pizzaria_api.World.{Context, W}
use pizzaria_api.Prisma.Table.{Reply, returned, raised}
use pizzaria_api.Logger.{no_entries}
use pizzaria_api.Logger.Lines.{error}
use pizzaria_api.Server.{Process, log}

pub record HealthResponse : Type 0 where
  pub status : Str

pub record RootResponse : Type 0 where
  pub message : Str

pub record HealthRepositoryProtocol (ctx : Context) : Type 0 where
  pub is_database_reachable : Action (Process ctx) Bool

module _ (ctx : Context) where
  -- `except Exception` takes whatever the client raises, and logs it.
  abbrev or_unreachable : Reply (Unit {0}) → Action (Process ctx) Bool
  or_unreachable (returned _) = pure true
  or_unreachable (raised e) = do log ctx error (codes "database_unreachable") no_entries; pure false

  -- `HealthRepository.is_database_reachable`
  unfoldable pub is_database_reachable : Action (Process ctx) Bool
  is_database_reachable p = or_unreachable (ctx.client.select_one p.world.db) p

  -- `get_health_repository`
  abbrev pub get_health_repository : HealthRepositoryProtocol ctx
  get_health_repository = record { is_database_reachable = is_database_reachable }

  -- `HealthService`, on any repository.
  module _ (repository : HealthRepositoryProtocol ctx) where
    -- `HealthService.check`
    unfoldable pub check : Action (Process ctx) HealthResponse
    check = pure (record { status = codes "ok" })

    abbrev ready_if : Bool → Action (Process ctx) HealthResponse
    ready_if true = pure (record { status = codes "ok" })
    ready_if false = raise (service_unavailable_error (codes "Database unreachable"))

    -- `HealthService.ready`
    unfoldable pub ready : Action (Process ctx) HealthResponse
    ready = repository.is_database_reachable >>= ready_if

  unfoldable pub root : Action (Process ctx) RootResponse
  root = pure (record { message = codes "Pizzaria API" })

  -- The endpoints, on the service that `get_health_service` builds.
  unfoldable pub health_check : Action (Process ctx) HealthResponse
  unfolding check
  health_check = check get_health_repository

  unfoldable pub readiness_check : Action (Process ctx) HealthResponse
  unfolding ready
  readiness_check = ready get_health_repository
