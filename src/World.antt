-- ===== src/World.antt =====
-- What the handlers of one process share: Redis, the database, the metrics, the two breakers and
-- the clocks. `S` and `D` are the states of Redis and of the database.
use crypto_back.Prelude.{ℕ, List, [], ◌∷◌, ◌++◌}
use crypto_back.Metrics.{Metric}
use crypto_back.Breaker.{CircuitBreaker}

pub record World (S D : Type 0) : Type 0 where
  pub store : S
  pub db : D
  pub metrics : List Metric
  pub coingecko_breaker : CircuitBreaker
  pub claude_breaker : CircuitBreaker
  -- `time.monotonic()`, in seconds
  pub monotonic : ℕ
  -- `datetime.now(timezone.utc)`, in microseconds since the epoch
  pub now : ℕ

module _ {S D : Type 0} where
  abbrev pub emit : Metric → World S D → World S D
  emit m w = record w { metrics = w.metrics ++ m ∷ [] }
