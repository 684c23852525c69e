-- ===== src/Breaker/History.antt =====
-- A breaker (app/core/circuit_breaker.py) remembers of its past only how many failures there were
-- since the last success.
use crypto_back.Prelude.{
  ℕ, ◌+◌, ◌<◌, ◌≡◌, refl, ◌↔◌, String, Bool, true, false, none, some, List, [], ◌∷◌, arith,
  if◌then◌else◌, any,
}
use crypto_back.Errors.{Class, class_of, issubclass_any}
use crypto_back.Breaker.{CircuitBreaker, closed, create}
use crypto_back.Breaker.Invariant.{
  Event, enter, leave, step, run, IsConsistent, create-IsConsistent, run-IsConsistent,
}

abbrev pub is_success : Event → Bool
is_success (leave now none) = true
is_success e = false

abbrev pub is_failure : List Class → Event → Bool
is_failure ign (leave now (some exc)) = if issubclass_any (class_of exc) ign then false else true
is_failure ign e = false

-- The events after the last success.
abbrev pub after_success : List Event → List Event
after_success [] = []
after_success (e ∷ es) =
    if any is_success es then after_success es else if is_success e then es else e ∷ es

abbrev pub failures : List Class → List Event → ℕ
failures ign [] = 0
failures ign (e ∷ es) = if is_failure ign e then failures ign es + 1 else failures ign es

step-ignored :
    (e : Event) (cb : CircuitBreaker) → (step e cb).ignored_exceptions ≡ cb.ignored_exceptions
unfolding step
step-ignored (enter now) cb = ground arith
step-ignored (leave now none) cb = refl
step-ignored (leave now (some exc)) cb = ground arith

step-threshold :
    (e : Event) (cb : CircuitBreaker) → (step e cb).failure_threshold ≡ cb.failure_threshold
unfolding step
step-threshold (enter now) cb = ground arith
step-threshold (leave now none) cb = refl
step-threshold (leave now (some exc)) cb = ground arith

run-threshold :
    (es : List Event) (cb : CircuitBreaker) → (run es cb).failure_threshold ≡ cb.failure_threshold
unfolding run
run-threshold [] cb = refl
run-threshold (e ∷ es) cb = ground (arith, run-threshold es (step e cb), step-threshold e cb)

step-count :
    (e : Event) (cb : CircuitBreaker)
    → (step e cb).failure_count ≡ (
        if is_success e
        then 0
        else if is_failure cb.ignored_exceptions e
        then cb.failure_count + 1
        else cb.failure_count)
unfolding step
step-count (enter now) cb = ground arith
step-count (leave now none) cb = refl
step-count (leave now (some exc)) cb = ground arith

run-count :
    (ign : List Class) (es : List Event) (cb : CircuitBreaker)
    → cb.ignored_exceptions ≡ ign
    → (run es cb).failure_count ≡ (
        if any is_success es
        then failures ign (after_success es)
        else cb.failure_count + failures ign es)
unfolding run
run-count ign [] cb h = ground arith
run-count ign (e ∷ es) cb h =
    ground (arith, run-count ign es (step e cb), step-count e cb, step-ignored e cb)

no_success : (es : List Event) → any is_success es ≡ false → after_success es ≡ es
no_success [] h = refl
no_success (e ∷ es) h = ground arith

threshold_lem :
    (s : String) (t r : ℕ) (ign : List Class) (es : List Event)
    → (run es (create s t r ign)).failure_threshold ≡ t
unfolding create
threshold_lem s t r ign es = run-threshold es (create s t r ign)

count_lem :
    (s : String) (t r : ℕ) (ign : List Class) (es : List Event)
    → (run es (create s t r ign)).failure_count ≡ failures ign (after_success es)
unfolding create
count_lem s t r ign es = ground (arith, run-count ign es (create s t r ign) refl, no_success es)

-- In a consistent breaker the count decides whether it is closed.
closed_iff :
    (cb : CircuitBreaker)
    → IsConsistent cb
    → (cb.state ≡ closed) ↔ (cb.failure_count < cb.failure_threshold)
closed_iff cb h = (h.closed_below, λ lt. ground arith)

-- After any events, a new breaker with a positive threshold has counted exactly the failures,
-- ignored exceptions apart, since the last success; and it is closed exactly if those are fewer
-- than the threshold.
pub run_history :
    (s : String) (t r : ℕ) (ign : List Class) (es : List Event)
    → 0 < t
    → ((run es (create s t r ign)).failure_count ≡ failures ign (after_success es))
      × (((run es (create s t r ign)).state ≡ closed) ↔ (failures ign (after_success es) < t))
run_history s t r ign es h =
    let cb = create s t r ign in
    let same : (run es cb).failure_threshold ≡ t = threshold_lem s t r ign es in
    let count : (run es cb).failure_count ≡ failures ign (after_success es) =
      count_lem s t r ign es in
    let decide =
      closed_iff (run es cb) (run-IsConsistent es cb (create-IsConsistent s t r ign h)) in
    (count, ((λ c. omega (arith, decide.0 c)), (λ lt. decide.1 (omega arith))))
