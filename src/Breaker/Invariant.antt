-- ===== src/Breaker/Invariant.antt =====
-- What holds of a breaker (app/core/circuit_breaker.py) after any interleaving of the tasks that
-- enter and leave it.
use crypto_back.Prelude.{ℕ, ◌≤◌, ◌<◌, ◌≡◌, String, ◌⊎◌, Option, none, some, List, [], ◌∷◌, arith}
use crypto_back.Errors.{Class, Error}
use crypto_back.Breaker.{State, closed, opened, half_open, CircuitBreaker, create, aenter, aexit}

-- One task enters at a time, or leaves at a time with an exception or with none.
pub data Event : Type 0 where
  enter : ℕ → Event
  leave : ℕ → Option Error → Event

unfoldable pub step : Event → CircuitBreaker → CircuitBreaker
unfolding aenter aexit
step (enter now) cb = (aenter now cb).1
step (leave now exc) cb = aexit now exc cb

unfoldable pub run : List Event → CircuitBreaker → CircuitBreaker
run [] cb = cb
run (e ∷ es) cb = run es (step e cb)

-- The documented values of the gauge.
abbrev pub gauge_of : State → ℕ
gauge_of closed = 0
gauge_of half_open = 1
gauge_of opened = 2

pub record IsConsistent (cb : CircuitBreaker) : Type 0 where
  pub threshold_pos : 0 < cb.failure_threshold
  pub closed_below : cb.state ≡ closed → cb.failure_count < cb.failure_threshold
  pub opened_reached : cb.state ≡ opened → cb.failure_threshold ≤ cb.failure_count
  pub half_open_reached : cb.state ≡ half_open → cb.failure_threshold ≤ cb.failure_count
  pub gauge_agrees :
      (cb.gauge ≡ some (gauge_of cb.state)) ⊎ ((cb.gauge ≡ none) × (cb.state ≡ closed))

pub create-IsConsistent :
    (s : String) (t r : ℕ) (ign : List Class) → 0 < t → IsConsistent (create s t r ign)
unfolding create
create-IsConsistent s t r ign h = ground arith

pub step-IsConsistent :
    (e : Event) (cb : CircuitBreaker) → IsConsistent cb → IsConsistent (step e cb)
unfolding step
step-IsConsistent (enter now) cb h = ground arith
step-IsConsistent (leave now none) cb h = ground arith
step-IsConsistent (leave now (some exc)) cb h = ground arith

-- Whatever tasks enter and leave, and in whatever order, a consistent breaker stays consistent: it
-- is closed only below the threshold, open or half open only at it or above, and the gauge shows
-- its state once it has been set.
pub run-IsConsistent :
    (es : List Event) (cb : CircuitBreaker) → IsConsistent cb → IsConsistent (run es cb)
unfolding run
run-IsConsistent [] cb h = h
run-IsConsistent (e ∷ es) cb h = run-IsConsistent es (step e cb) (step-IsConsistent e cb h)
