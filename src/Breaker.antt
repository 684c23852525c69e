-- ===== src/Breaker.antt =====
-- app/core/circuit_breaker.py: `class CircuitBreaker`. `__aenter__` and `__aexit__` run under the
-- breaker's own lock, so each of them is one step. Times are readings of `time.monotonic()`.
pub mod Invariant
pub mod History
pub mod Recovery
pub mod Block
use crypto_back.Prelude.{
  ℕ, ◌+◌, String, Bool, true, false, ◌&&◌, Option, none, some, List, [], ◌∷◌, leb, if◌then◌else◌,
}
use crypto_back.Errors.{Class, Error, circuit_open_error, not_found, class_of, issubclass_any}

-- `class State`; `opened` is OPEN.
pub data State : Type 0 where
  closed opened half_open : State

abbrev pub is_opened : State → Bool
is_opened opened = true
is_opened s = false

-- `gauge` is the value of `crypto_circuit_breaker_state` for the service, once it is set.
pub record CircuitBreaker : Type 0 where
  pub service : String
  pub failure_threshold : ℕ
  pub recovery_timeout : ℕ
  pub ignored_exceptions : List Class
  pub state : State
  pub failure_count : ℕ
  pub last_failure_time : ℕ
  pub gauge : Option ℕ

-- `__init__`
unfoldable pub create : String → ℕ → ℕ → List Class → CircuitBreaker
create service failure_threshold recovery_timeout ignored_exceptions = record {
  service = service;
  failure_threshold = failure_threshold;
  recovery_timeout = recovery_timeout;
  ignored_exceptions = ignored_exceptions;
  state = closed;
  failure_count = 0;
  last_failure_time = 0;
  gauge = none;
}

unfoldable pub record_success : CircuitBreaker → CircuitBreaker
record_success cb = record cb { failure_count = 0; state = closed; gauge = some 0 }

unfoldable pub record_failure : ℕ → CircuitBreaker → CircuitBreaker
record_failure now cb =
    if leb cb.failure_threshold (cb.failure_count + 1)
    then record cb {
      failure_count = cb.failure_count + 1;
      last_failure_time = now;
      state = opened;
      gauge = some 2;
    }
    else record cb { failure_count = cb.failure_count + 1; last_failure_time = now }

-- `now - last_failure_time >= recovery_timeout`, with no negative difference.
unfoldable pub should_attempt_reset : ℕ → CircuitBreaker → Bool
should_attempt_reset now cb =
    is_opened cb.state && leb (cb.last_failure_time + cb.recovery_timeout) now

-- The first statement of `__aenter__`.
unfoldable pub attempt_reset : ℕ → CircuitBreaker → CircuitBreaker
unfolding should_attempt_reset
attempt_reset now cb =
    if should_attempt_reset now cb then record cb { state = half_open; gauge = some 1 } else cb

-- `__aenter__`: `none` lets the caller in.
unfoldable pub aenter : ℕ → CircuitBreaker → Option Error × CircuitBreaker
unfolding attempt_reset
aenter now cb =
    let cb' = attempt_reset now cb in
    if is_opened cb'.state then (some (circuit_open_error cb'.service), cb') else (none, cb')

-- `__aexit__`, with the exception that left the block; it is never suppressed.
unfoldable pub aexit : ℕ → Option Error → CircuitBreaker → CircuitBreaker
unfolding record_success record_failure issubclass_any
aexit now none cb = record_success cb
aexit now (some exc) cb =
    if issubclass_any (class_of exc) cb.ignored_exceptions then cb else record_failure now cb

-- The two breakers of the program, with times in seconds.
unfoldable pub coingecko_breaker : CircuitBreaker
unfolding create
coingecko_breaker = create "coingecko" 5 30 (not_found ∷ [])

unfoldable pub claude_breaker : CircuitBreaker
unfolding create
claude_breaker = create "claude" 3 60 []
