-- ===== src/Metrics.antt =====
-- app/core/metrics.py: the Prometheus metrics that the code updates. An update is a value with its
-- labels; the state keeps the updates in the order in which they were made.
use crypto_back.Prelude.{ℕ, String, Option}
use crypto_back.Prelude.Int.{ℤ}

pub data Metric : Type 0 where
  -- `.labels(cache_key_prefix=...).inc()`
  cache_hits cache_misses : String → Metric
  -- `.labels(result=...).inc()`
  auth_attempts token_refresh_total : String → Metric
  -- `.labels(operation=...).inc()`, and `.observe(...)`
  coingecko_requests coingecko_latency : String → Metric
  -- the status code; `none` is the label "network"
  coingecko_errors : String → Option ℕ → Metric
  ai_insight_requests : String → Metric
  ai_insight_latency : Metric
  -- the operation and its result
  watchlist_operations : String → String → Metric
  coin_refresh_total : Metric
  coins_updated : ℕ → Metric
  refresh_last_success_timestamp : ℕ → Metric
  refresh_coins_updated_last_run : ℕ → Metric
  refresh_duration_seconds : Metric
  refresh_failures_total : ℕ → Metric
  data_age_seconds : ℤ → Metric
  db_pool_size db_pool_checked_out : ℕ → Metric
  db_pool_overflow : ℤ → Metric
