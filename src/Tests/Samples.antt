-- ===== src/Tests/Samples.antt =====
-- States and parameters that the tests share.
use crypto_back.Prelude.{ℕ, none, [], ◌∷◌}
use crypto_back.World.{World}
use crypto_back.Breaker.{CircuitBreaker, closed}
use crypto_back.Redis.Memory.{Memory}
use crypto_back.Errors.{not_found}

-- Nothing happens while a task sleeps.
abbrev pub quiet : {W : Type 0} → ℕ → W → W
quiet n w = w

abbrev pub gecko : CircuitBreaker
gecko = record {
  service = "coingecko";
  failure_threshold = 5;
  recovery_timeout = 30;
  ignored_exceptions = not_found ∷ [];
  state = closed;
  failure_count = 0;
  last_failure_time = 0;
  gauge = none;
}

abbrev pub world : {D : Type 0} → Memory → D → World Memory D
world m d = record {
  store = m;
  db = d;
  metrics = [];
  coingecko_breaker = gecko;
  claude_breaker = gecko;
  monotonic = 100;
  now = 5000000;
}
