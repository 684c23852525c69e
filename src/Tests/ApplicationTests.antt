-- ===== src/Tests/ApplicationTests.antt =====
-- The health check and the log of app/main.py and app/core/middleware.py.
use crypto_back.Prelude.{true, false, ℕ, ◌≡◌, ◌↔◌, ◌⊎◌, refl, some, none, List, [], ◌∷◌, map}
use crypto_back.Prelude.Int.{pos}
use crypto_back.Errors.{other_error, runtime_error, exception}
use crypto_back.Exec.{ok, err}
use crypto_back.Redis.Memory.{Memory}
use crypto_back.Application.{Process, absent, cancelled, lifespan, health}
use crypto_back.Application.Health.{Passes, health_hides}
use crypto_back.Application.Middleware.{Logged}
use crypto_back.Application.Requests.{Arrival, subject, serve, serve-subjects}
use crypto_back.Tests.Samples.{world}

health_hides_example :
    let reply = health "production" (ok 12) (err (other_error runtime_error)) in
    let reply' = health "production" (ok 12) (err (other_error exception)) in
    ((reply.status_code ≡ 200) ↔ (Passes (ok 12) × Passes (err (other_error runtime_error))))
    × ((reply.status_code ≡ 200) ⊎ (reply.status_code ≡ 503))
    × (reply.status_code ≡ reply'.status_code)
    × (reply.content ≡ reply'.content)
health_hides_example =
    health_hides "production" (ok 12) (ok 12) (err (other_error runtime_error))
      (err (other_error exception)) refl tt

abbrev process : Process (Unit {0})
process = record { state = tt; grpc = absent; redis_open = false; log = [] }

abbrev opens : Process (Unit {0}) → Process (Unit {0})
opens p = record p { redis_open = true }

-- In production a failed migration stops the start, elsewhere it is logged.
lifespan_tests :
    (lifespan "production" (err (other_error runtime_error)) opens process
      ≡ (err (other_error runtime_error), record process { log = "alembic_migration_failed" ∷ [] }))
    × (lifespan "development" (err (other_error runtime_error)) opens process
        ≡ (ok tt, record process { grpc = cancelled; log = "alembic_migration_failed" ∷ [] }))
unfolding lifespan
lifespan_tests = (refl, refl)

abbrev quiet : Logged Memory (Unit {0})
quiet = record { world = world [] tt; bound = none; lines = [] }

-- A response, a health check and an exception.
abbrev arrivals : List (Arrival Memory (Unit {0}) ℕ)
arrivals =
    record {
      request_id = "a";
      pool = some (record { size = 10; checkedout = 1; overflow = pos 0 });
      request = record { method = "GET"; path = "/api/v1/cryptocurrencies" };
      call_next = λ w. (ok 200, w);
    }
    ∷ record {
      request_id = "b";
      pool = none;
      request = record { method = "GET"; path = "/health" };
      call_next = λ w. (ok 200, w);
    }
    ∷ record {
      request_id = "c";
      pool = none;
      request = record { method = "POST"; path = "/api/v1/watchlist" };
      call_next = λ w. (err (other_error runtime_error), w);
    }
    ∷ []

serve-subjects_test :
    map subject (serve (λ n. n) arrivals quiet).lines
    ≡ (some "a", ("GET", "/api/v1/cryptocurrencies"))
      ∷ (some "c", ("POST", "/api/v1/watchlist"))
      ∷ []
serve-subjects_test = serve-subjects (λ n. n) arrivals quiet
