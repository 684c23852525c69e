-- ===== src/Breaker/Recovery.antt =====
-- Opening, cooling down and probing (app/core/circuit_breaker.py).
use crypto_back.Prelude.{
  ℕ, ◌+◌, ◌≤◌, ◌≡◌, leb, if◌then◌else◌, refl, ◌∙◌, ap, String, Bool, true, false, ◌||◌, Bool-cases,
  inl, inr, Option, none, some, List, [], ◌∷◌, arith,
}
use crypto_back.Errors.{Error, circuit_open_error, class_of, issubclass_any}
use crypto_back.Breaker.{closed, opened, half_open, CircuitBreaker, aenter, aexit}
use crypto_back.Breaker.Invariant.{IsConsistent}

-- A counted failure that reaches the threshold opens the breaker: a caller before the recovery
-- timeout has passed is refused with `CircuitOpenError` and changes nothing, and one from then on is
-- let in and makes the breaker half open.
pub fast_fail :
    (t now : ℕ) (exc : Error) (cb : CircuitBreaker)
    → issubclass_any (class_of exc) cb.ignored_exceptions ≡ false
    → cb.failure_threshold ≤ cb.failure_count + 1
    → let cb' = aexit t (some exc) cb in
      (cb'.state ≡ opened)
      × (aenter now cb' ≡ (
          if leb (t + cb.recovery_timeout) now
          then (none, record cb' { state = half_open; gauge = some 1 })
          else (some (circuit_open_error cb.service), cb')))
unfolding aexit aenter
fast_fail t now exc cb counted reached = ground arith

-- The end of a probe of a consistent half-open breaker decides: a success closes it and clears the
-- count; an ignored exception changes nothing, and any other opens it again from that time.
pub probe_decides :
    (t : ℕ) (exc : Error) (cb : CircuitBreaker)
    → IsConsistent cb
    → cb.state ≡ half_open
    → (aexit t none cb ≡ record cb { state = closed; failure_count = 0; gauge = some 0 })
      × (aexit t (some exc) cb ≡ (
          if issubclass_any (class_of exc) cb.ignored_exceptions then cb else record cb {
            state = opened;
            failure_count = cb.failure_count + 1;
            last_failure_time = t;
            gauge = some 2;
          }))
unfolding aexit
probe_decides t exc cb h half = ground arith

-- The callers that enter one after the other at the given times, none leaving in between.
unfoldable pub enter_all : List ℕ → CircuitBreaker → List (Option Error) × CircuitBreaker
enter_all [] cb = ([], cb)
enter_all (now ∷ times) cb =
    let (r, cb') = aenter now cb in let (rs, cb'') = enter_all times cb' in (r ∷ rs, cb'')

-- Each caller in turn is refused with `CircuitOpenError`, until one comes at the time `reopens` or
-- later: that one and all who follow it are let in.
unfoldable pub verdicts :
    (reopens : ℕ) → (service : String) → (passed : Bool) → List ℕ → List (Option Error)
verdicts reopens service passed [] = []
verdicts reopens service passed (now ∷ times) =
    let late = passed || leb reopens now in
    (if late then none else some (circuit_open_error service)) ∷ verdicts reopens service late times

half_open-aenter :
    (now : ℕ) (cb : CircuitBreaker) → cb.state ≡ half_open → aenter now cb ≡ (none, cb)
unfolding aenter
half_open-aenter now cb h = ground arith

enter_all-half_open :
    (reopens : ℕ) (service : String) (times : List ℕ) (cb : CircuitBreaker)
    → cb.state ≡ half_open
    → (enter_all times cb).0 ≡ verdicts reopens service true times
unfolding enter_all verdicts
enter_all-half_open reopens service [] cb h = refl
enter_all-half_open reopens service (now ∷ times) cb h =
    rw (half_open-aenter now cb h)
      (ap (λ (l : List (Option Error)). none ∷ l) (enter_all-half_open reopens service times cb h))

opened-aenter :
    (now : ℕ) (cb : CircuitBreaker)
    → cb.state ≡ opened
    → aenter now cb ≡ (
        if leb (cb.last_failure_time + cb.recovery_timeout) now
        then (none, record cb { state = half_open; gauge = some 1 })
        else (some (circuit_open_error cb.service), cb))
unfolding aenter
opened-aenter now cb h = ground arith

enter_all-opened :
    (times : List ℕ) (cb : CircuitBreaker)
    → cb.state ≡ opened
    → (enter_all times cb).0
      ≡ verdicts (cb.last_failure_time + cb.recovery_timeout) cb.service false times
unfolding enter_all verdicts
enter_all-opened [] cb h = refl
enter_all-opened (now ∷ times) cb h =
    elim (Bool-cases (leb (cb.last_failure_time + cb.recovery_timeout) now)) [
      | inl late ↦
          rw (opened-aenter now cb h, late)
            (ap (λ (l : List (Option Error)). none ∷ l)
              (enter_all-half_open (cb.last_failure_time + cb.recovery_timeout) cb.service times
                (record cb { state = half_open; gauge = some 1 }) refl))
      | inr early ↦
          rw (opened-aenter now cb h, early)
            (ap (λ (l : List (Option Error)). some (circuit_open_error cb.service) ∷ l)
              (enter_all-opened times cb h))
    ]

opened_at :
    (t : ℕ) (exc : Error) (cb : CircuitBreaker)
    → issubclass_any (class_of exc) cb.ignored_exceptions ≡ false
    → cb.failure_threshold ≤ cb.failure_count + 1
    → let cb' = aexit t (some exc) cb in
      (cb'.state ≡ opened)
      × (cb'.last_failure_time ≡ t)
      × (cb'.recovery_timeout ≡ cb.recovery_timeout)
      × (cb'.service ≡ cb.service)
unfolding aexit
opened_at t exc cb counted reached = ground arith

-- After the counted failure that reaches the threshold, callers who enter one after the other, none of
-- whom has left yet, are refused until the recovery timeout has passed since the failure. From the
-- first who comes at that time or later every one is let in, not a single probe, however many they
-- are.
pub opened_admits_all :
    (t : ℕ) (exc : Error) (times : List ℕ) (cb : CircuitBreaker)
    → issubclass_any (class_of exc) cb.ignored_exceptions ≡ false
    → cb.failure_threshold ≤ cb.failure_count + 1
    → (enter_all times (aexit t (some exc) cb)).0
      ≡ verdicts (t + cb.recovery_timeout) cb.service false times
opened_admits_all t exc times cb counted reached =
    let (is_opened, at, timeout, service) = opened_at t exc cb counted reached in
    enter_all-opened times (aexit t (some exc) cb) is_opened ∙ (rw (at, timeout, service) refl)
