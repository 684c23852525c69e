-- ===== src/Tests/BreakerTests.antt =====
-- The breaker of app/core/circuit_breaker.py.
use crypto_back.Prelude.{
  ◌<◌, ◌≡◌, ◌↔◌, if◌then◌else◌, refl, false, none, some, List, [], ◌∷◌, arith,
}
use crypto_back.Errors.{
  Error, circuit_open_error, external_service_error, not_found, issubclass_any, class_of,
}
use crypto_back.Breaker.{CircuitBreaker, create, closed, opened, half_open, aenter, aexit}
use crypto_back.Breaker.Invariant.{
  Event, enter, leave, step, run, IsConsistent, create-IsConsistent, run-IsConsistent,
}
use crypto_back.Breaker.History.{after_success, failures, run_history}
use crypto_back.Breaker.Recovery.{fast_fail, probe_decides, enter_all, verdicts, opened_admits_all}
use crypto_back.Tests.Samples.{gecko}

abbrev outage : Error
outage = external_service_error "down"

abbrev events : List Event
events =
    leave 1 (some outage)
    ∷ leave 2 none
    ∷ leave 3 (some outage)
    ∷ leave 4 (some outage)
    ∷ enter 5
    ∷ []

-- Two failures since the last success open a breaker of threshold two.
run-events : (run events (create "x" 2 30 [])).state ≡ opened
unfolding run create step
run-events = refl

run-IsConsistent_example : IsConsistent (run events (create "x" 2 30 []))
run-IsConsistent_example =
    run-IsConsistent events (create "x" 2 30 []) (create-IsConsistent "x" 2 30 [] (omega arith))

run_history_example :
    ((run events (create "x" 2 30 [])).failure_count ≡ failures [] (after_success events))
    × (((run events (create "x" 2 30 [])).state ≡ closed)
        ↔ (failures [] (after_success events) < 2))
run_history_example = run_history "x" 2 30 [] events (omega arith)

abbrev worn : CircuitBreaker
worn = record gecko { failure_count = 4 }

fast_fail_test :
    let cb' = aexit 50 (some outage) worn in
    (cb'.state ≡ opened) × (aenter 60 cb' ≡ (some (circuit_open_error "coingecko"), cb'))
unfolding issubclass_any class_of
fast_fail_test = fast_fail 50 60 outage worn refl (omega arith)

abbrev probing : CircuitBreaker
probing = record gecko { failure_count = 5; state = half_open; gauge = some 1 }

probing-IsConsistent : IsConsistent probing
probing-IsConsistent = ground arith

probe_decides_test :
    (aexit 90 none probing ≡ record probing { state = closed; failure_count = 0; gauge = some 0 })
    × (aexit 90 (some outage) probing ≡ (
        if issubclass_any (class_of outage) (not_found ∷ []) then probing else record probing {
          state = opened;
          failure_count = 6;
          last_failure_time = 90;
          gauge = some 2;
        }))
probe_decides_test = probe_decides 90 outage probing probing-IsConsistent refl

opened_admits_all_example :
    (enter_all (60 ∷ 81 ∷ 70 ∷ []) (aexit 50 (some outage) worn)).0
    ≡ verdicts 80 "coingecko" false (60 ∷ 81 ∷ 70 ∷ [])
unfolding issubclass_any class_of
opened_admits_all_example = opened_admits_all 50 outage (60 ∷ 81 ∷ 70 ∷ []) worn refl (omega arith)

three_verdicts :
    verdicts 80 "coingecko" false (60 ∷ 81 ∷ 70 ∷ [])
    ≡ some (circuit_open_error "coingecko") ∷ none ∷ none ∷ []
unfolding verdicts
three_verdicts = refl
