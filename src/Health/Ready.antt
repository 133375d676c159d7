-- ===== src/Health/Ready.antt =====
-- What the endpoints of src/modules/health answer while the database is up and while it is down.
use pizzaria_api.Prelude.{ℕ, ◌≡◌, refl, []}
use pizzaria_api.Text.{codes}
use pizzaria_api.Errors.{domain, service_unavailable_error}
use pizzaria_api.Action.{Action, ok, failed, ◌>>=◌, pure}
use pizzaria_api.World.{Context}
use pizzaria_api.Prisma.Table.{Reply, returned, raised}
use pizzaria_api.Logger.{no_entries}
use pizzaria_api.Logger.Lines.{error}
use pizzaria_api.Server.{Process, log}
use pizzaria_api.Server.Middleware.{Request, Response}
use pizzaria_api.Server.Middleware.Outcome.{opened}
use pizzaria_api.Server.App.{serve}
use pizzaria_api.Server.App.Outcome.{serve_lem}
use pizzaria_api.Health.{health_check, readiness_check, is_database_reachable}

module _ (ctx : Context) where
  -- The response of FastAPI for what an endpoint returned.
  abbrev pub responding : {A : Type 0} → Action (Process ctx) A → Action (Process ctx) Response
  responding m = m >>= λ _. pure (record { status_code = 200; headers = [] })

  abbrev pub readiness_status : Reply (Unit {0}) → ℕ
  readiness_status (returned _) = 200
  readiness_status (raised e) = 503

  -- The answer to the readiness check, by the reply of the client.
  readiness_by :
      (perf : ℕ → ℕ) (request : Request) (p : Process ctx) (reply : Reply (Unit {0}))
      → ctx.client.select_one p.world.db ≡ reply
      → (serve ctx perf request (responding (readiness_check ctx)) p).0.status_code
        ≡ readiness_status reply
  unfolding readiness_check log is_database_reachable service_unavailable_error
  readiness_by perf request p (returned _) e =
      (serve_lem ctx perf request (responding (readiness_check ctx))
        (ok (record { status_code = 200; headers = [] })) p (opened ctx request p) (rw e refl)).0
  readiness_by perf request p (raised x) e =
      (serve_lem ctx perf request (responding (readiness_check ctx))
        (failed (domain (service_unavailable_error (codes "Database unreachable")))) p
        (log ctx error (codes "database_unreachable") no_entries (opened ctx request p)).1
        (rw e refl)).0

  -- While the process runs at all, the liveness check is answered with a 200; the readiness check
  -- is answered with a 200 if the database takes the query, and with a 503 whatever it raises.
  pub readiness_check_lem :
      (perf : ℕ → ℕ) (request : Request) (p : Process ctx)
      → ((serve ctx perf request (responding (health_check ctx)) p).0.status_code ≡ 200)
        × ((serve ctx perf request (responding (readiness_check ctx)) p).0.status_code
            ≡ readiness_status (ctx.client.select_one p.world.db))
  unfolding health_check
  readiness_check_lem perf request p = (
    (serve_lem ctx perf request (responding (health_check ctx))
        (ok (record { status_code = 200; headers = [] })) p (opened ctx request p) refl).0,
    readiness_by perf request p (ctx.client.select_one p.world.db) refl,
  )
