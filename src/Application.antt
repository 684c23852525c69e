-- ===== src/Application.antt =====
-- app/main.py: `lifespan`, with the statements that start and stop the transports, and `health`; and
-- app/core/middleware.py in the child Middleware. The migration, the probes and what is served are
-- parameters; a latency is a whole number of tenths of a millisecond.
pub mod Health
pub mod Middleware
pub mod Requests
use crypto_back.Prelude.{ℕ, String, Bool, true, false, List, [], ◌∷◌, ◌++◌, str_eq, if◌then◌else◌}
use crypto_back.Prelude.Int.{ℤ}
use crypto_back.Json.{Json, str, num, obj, end, field}
use crypto_back.Errors.{Error}
use crypto_back.Exec.{Result, ok, err, Exec}

-- The tasks and connections of one process.
pub data GrpcTask : Type 0 where
  absent running cancelled : GrpcTask

pub record Process (S : Type 0) : Type 0 where
  pub state : S
  pub grpc : GrpcTask
  pub redis_open : Bool
  pub log : List String

module _ {S : Type 0} where
  abbrev info : String → Process S → Process S
  info event p = record p { log = p.log ++ event ∷ [] }

  -- The statements after `yield`; `close_redis` drops the connection, if there is one.
  unfoldable pub shutdown : Process S → Process S
  shutdown p = record p { grpc = cancelled; redis_open = false }

  -- `lifespan`, with the outcome of the migration; `serve` is what runs at `yield`.
  unfoldable pub lifespan :
      String → Result (Unit {0}) → (Process S → Process S) → Exec (Process S) Unit
  unfolding shutdown
  lifespan environment (ok tt) serve p =
      (ok tt, shutdown (serve (record (info "alembic_migrations_applied" p) { grpc = running })))
  lifespan environment (err e) serve p =
      let logged = info "alembic_migration_failed" p in
      if str_eq environment "production"
      then (err e, logged)
      else (ok tt, shutdown (serve (record logged { grpc = running })))

-- One of the two checks, of which a failed one is logged under its name.
abbrev check : Result ℕ → Json
check (ok latency) = obj (field "status" (str "ok") (field "latency_ms" (num (ℤ.pos latency)) end))
check (err e) = obj (field "status" (str "error") (field "error" (str "unavailable") end))

abbrev passed : Result ℕ → Bool
passed (ok latency) = true
passed (err e) = false

abbrev logged : String → Result ℕ → List (String × Error)
logged event (ok latency) = []
logged event (err e) = (event, e) ∷ []

-- The reply of `health`, and what it wrote to the log.
pub record HealthReply : Type 0 where
  pub status_code : ℕ
  pub content : Json
  pub log : List (String × Error)

unfoldable pub health : String → Result ℕ → Result ℕ → HealthReply
health environment database redis =
    let healthy = if passed database then passed redis else false in
    record {
      status_code = if healthy then 200 else 503;
      content = obj (
          field "status" (str (if healthy then "ok" else "degraded")) (
            field "environment" (str environment) (
              field "checks"
                (obj (field "database" (check database) (field "redis" (check redis) end))) end)));
      log = logged "health_db_check_failed" database ++ logged "health_redis_check_failed" redis;
    }
