-- ===== src/Cache/Stampede/Once.antt =====
-- How often the factory is called for one miss (app/core/cache.py).
use crypto_back.Prelude.{
  ℕ, zero, suc, ◌<◌, ◌++◌, ◌≤◌, ◌≡◌, refl, Bool, true, false, List, [], ◌∷◌, All, arith,
}
use crypto_back.Cache.Stampede.{
  Phase, reading, checking, computing, storing, System, Event, advance, fail, expire_lock,
  expire_key, turn, step, run, start,
}
use crypto_back.Cache.Stampede.Exclusion.{
  IsExclusive, LockStays, step-IsExclusive, start-IsExclusive,
}

abbrev working : Phase → Bool
working computing = true
working storing = true
working p = false

-- While the one call of the holder has not filled the key, its task is at work.
record IsOnce (s : System) : Type 0 where
  worker : ℕ
  exclusive : IsExclusive s
  at_most : s.calls ≤ 1
  busy : s.calls ≡ 1 → s.filled ≡ false → working (s.phase worker) ≡ true

-- Nothing expires and no factory raises.
abbrev pub IsSteady : Event → Type 0
IsSteady (advance i) = Unit
IsSteady e = ⊥

record Counts (worker : ℕ) (s : System) : Type 0 where
  fewer : s.calls ≤ 1
  working_on : s.calls ≡ 1 → s.filled ≡ false → working (s.phase worker) ≡ true

worker_after : ℕ → Phase → System → ℕ → ℕ
worker_after i checking s k = elim s.filled [ true ↦ k | false ↦ i ]
worker_after i p s k = k

turn-Counts :
    (i : ℕ) (p : Phase) (s : System) (h : IsOnce s)
    → s.phase i ≡ p
    → Counts (worker_after i p s h.worker) (turn i p s)
unfolding turn worker_after
turn-Counts i checking s h e = ground (arith, h.exclusive.unique h.worker i)
turn-Counts i p s h e = ground arith

IsSteady-LockStays : (e : Event) → IsSteady e → LockStays e
IsSteady-LockStays (advance i) k = tt
IsSteady-LockStays (fail i) k = tt
IsSteady-LockStays expire_lock k = k
IsSteady-LockStays expire_key k = tt

step-IsOnce : (e : Event) (s : System) → IsSteady e → IsOnce s → IsOnce (step e s)
unfolding step
step-IsOnce (advance i) s k h =
    let counts = turn-Counts i (s.phase i) s h refl in
    record {
      worker = worker_after i (s.phase i) s h.worker;
      exclusive = step-IsExclusive (advance i) s tt h.exclusive;
      at_most = counts.fewer;
      busy = counts.working_on;
    }
step-IsOnce (fail i) s k h = absurd k
step-IsOnce expire_lock s k h = absurd k
step-IsOnce expire_key s k h = absurd k

run-IsOnce : (es : List Event) (s : System) → All IsSteady es → IsOnce s → IsOnce (run es s)
unfolding run
run-IsOnce [] s k h = h
run-IsOnce (e ∷ es) s k h = run-IsOnce es (step e s) k.1 (step-IsOnce e s k.0 h)

start-IsOnce : IsOnce start
start-IsOnce = record {
  worker = 0;
  exclusive = start-IsExclusive;
  at_most = omega arith;
  busy = λ h. absurd (omega arith);
}

-- Under every schedule in which nothing expires and no factory raises, however many tasks miss the
-- key, those that take the lock call the factory at most once between them.
pub stampede_once : (es : List Event) → All IsSteady es → (run es start).calls ≤ 1
stampede_once es steady = (run-IsOnce es start steady start-IsOnce).at_most

-- The lock expires while its holder is in the factory, and the next task comes.
unfoldable pub overlapping : ℕ → List Event
overlapping zero = []
overlapping (suc n) = overlapping n ++ expire_lock ∷ advance n ∷ advance n ∷ advance n ∷ []

run-append : (es fs : List Event) (s : System) → run (es ++ fs) s ≡ run fs (run es s)
unfolding run
run-append [] fs s = refl
run-append (e ∷ es) fs s = run-append es fs (step e s)

-- The first `n` tasks are in the factory, and the others have not begun.
record IsOverlapping (n : ℕ) (s : System) : Type 0 where
  missing : s.filled ≡ false
  called : s.calls ≡ n
  inside : (k : ℕ) → k < n → s.phase k ≡ computing
  outside : (k : ℕ) → n ≤ k → s.phase k ≡ reading

next-IsOverlapping :
    (n : ℕ) (s : System)
    → IsOverlapping n s
    → IsOverlapping (suc n) (run (expire_lock ∷ advance n ∷ advance n ∷ advance n ∷ []) s)
unfolding run
next-IsOverlapping n s h = record {
  missing = ground (arith, h.missing, h.outside n);
  called = ground (arith, h.missing, h.called, h.outside n);
  inside = λ k below. ground (arith, h.missing, h.outside n, h.inside k);
  outside = λ k above. ground (arith, h.missing, h.outside n, h.outside k);
}

run-IsOverlapping : (n : ℕ) → IsOverlapping n (run (overlapping n) start)
unfolding overlapping run
run-IsOverlapping zero = record {
  missing = refl;
  called = refl;
  inside = λ k below. absurd (omega arith);
  outside = λ k above. refl;
}
run-IsOverlapping (suc n) =
    rw (run-append (overlapping n) (expire_lock ∷ advance n ∷ advance n ∷ advance n ∷ []) start)
      (next-IsOverlapping n (run (overlapping n) start) (run-IsOverlapping n))

-- Without the condition that nothing expires there is no bound: for every `n`, under the schedule in
-- which the lock expires each time that a task is in the factory and the next task then comes, the
-- factory has been called `n` times with the lock held, and all `n` tasks are in it at once.
pub expired_lock_overlaps :
    (n k : ℕ) → k < n → let s = run (overlapping n) start in (s.calls ≡ n) × (s.phase k ≡ computing)
expired_lock_overlaps n k below = let h = run-IsOverlapping n in (h.called, h.inside k below)
