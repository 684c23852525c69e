-- ===== src/Cache/Stampede/Progress.antt =====
-- Every task comes to an end, and leaves no lock behind (app/core/cache.py).
use crypto_back.Prelude.{
  ℕ, ◌+◌, ◌≤◌, ◌≡◌, refl, true, false, ◌⊎◌, inl, inr, Bool-cases, List, [], ◌∷◌, ◌==◌,
  if◌then◌else◌, arith,
}
use crypto_back.Cache.Stampede.{
  Phase, reading, locking, checking, computing, storing, releasing, waiting, computing_alone,
  storing_alone, done, System, Event, advance, fail, expire_lock, expire_key, turn, raised, step,
  run, rounds, start,
}
use crypto_back.Cache.Stampede.Exclusion.{holds}

-- How many turns of its own a task needs at most from here on.
abbrev turns_left : Phase → ℕ
turns_left reading = rounds + 5
turns_left locking = rounds + 4
turns_left checking = 4
turns_left computing = 3
turns_left storing = 2
turns_left releasing = 1
turns_left (waiting n) = n + 3
turns_left computing_alone = 2
turns_left storing_alone = 1
turns_left done = 0

abbrev turns_in : ℕ → Event → ℕ
turns_in i (advance j) = if j == i then 1 else 0
turns_in i e = 0

-- How many turns the schedule gives the task.
abbrev pub turns : ℕ → List Event → ℕ
turns i [] = 0
turns i (e ∷ es) = turns_in i e + turns i es

-- A turn of task `j` brings it nearer to its end, and no other task away from it.
turn-turns_left :
    (i j : ℕ) (p : Phase) (s : System)
    → s.phase j ≡ p
    → (n : ℕ) → turns_left (s.phase i) ≤ turns_in i (advance j) + n
    → turns_left ((turn j p s).phase i) ≤ n
unfolding turn
turn-turns_left i j p s e n h = ground arith

raised-turns_left :
    (i j : ℕ) (p : Phase) (s : System)
    → s.phase j ≡ p
    → turns_left ((raised j p s).phase i) ≤ turns_left (s.phase i)
unfolding raised
raised-turns_left i j p s e = ground arith

step-turns_left :
    (i : ℕ) (e : Event) (s : System) (n : ℕ)
    → turns_left (s.phase i) ≤ turns_in i e + n
    → turns_left ((step e s).phase i) ≤ n
unfolding step
step-turns_left i (advance j) s n h = turn-turns_left i j (s.phase j) s refl n h
step-turns_left i (fail j) s n h = omega (arith, raised-turns_left i j (s.phase j) s refl)
step-turns_left i expire_lock s n h = omega arith
step-turns_left i expire_key s n h = omega arith

run-turns_left :
    (i : ℕ) (es : List Event) (s : System)
    → turns_left (s.phase i) ≤ turns i es
    → turns_left ((run es s).phase i) ≤ 0
unfolding run
run-turns_left i [] s h = h
run-turns_left i (e ∷ es) s h =
    run-turns_left i es (step e s) (step-turns_left i e s (turns i es) h)

done_of_turns_left : (p : Phase) → turns_left p ≤ 0 → p ≡ done
done_of_turns_left p h = ground arith

-- A task that has had no turn has not begun.
step-reading :
    (i : ℕ) (e : Event) (s : System)
    → turns_in i e ≡ 0
    → s.phase i ≡ reading
    → (step e s).phase i ≡ reading
unfolding step turn raised
step-reading i e s h k = ground arith

run-reading :
    (i : ℕ) (es : List Event) (s : System)
    → turns i es ≡ 0
    → s.phase i ≡ reading
    → (run es s).phase i ≡ reading
unfolding run
run-reading i [] s h k = k
run-reading i (e ∷ es) s h k =
    run-reading i es (step e s) (omega arith) (step-reading i e s (omega arith) k)

-- A lock that is there is held by a task, which has a turn ahead in which it releases it.
IsOwned : System → Type 0
IsOwned s = s.lock ≡ true → (i : ℕ) × (holds (s.phase i) ≡ true)

turn-IsOwned : (j : ℕ) (p : Phase) (s : System) → s.phase j ≡ p → IsOwned s → IsOwned (turn j p s)
unfolding IsOwned turn
turn-IsOwned j locking s e h l = elim (Bool-cases s.lock) [
  | inl taken ↦ let (k, held) = h taken in (k, ground arith)
  | inr free ↦ (j, ground arith)
]
turn-IsOwned j releasing s e h l = cc
turn-IsOwned j p s e h l = let (k, held) = h (ground arith) in (k, ground arith)

raised-IsOwned :
    (j : ℕ) (p : Phase) (s : System) → s.phase j ≡ p → IsOwned s → IsOwned (raised j p s)
unfolding IsOwned raised
raised-IsOwned j p s e h l = let (k, held) = h (ground arith) in (k, ground arith)

step-IsOwned : (e : Event) (s : System) → IsOwned s → IsOwned (step e s)
unfolding step IsOwned
step-IsOwned (advance j) s h = turn-IsOwned j (s.phase j) s refl h
step-IsOwned (fail j) s h = raised-IsOwned j (s.phase j) s refl h
step-IsOwned expire_lock s h = λ l. cc
step-IsOwned expire_key s h = h

run-IsOwned : (es : List Event) (s : System) → IsOwned s → IsOwned (run es s)
unfolding run
run-IsOwned [] s h = h
run-IsOwned (e ∷ es) s h = run-IsOwned es (step e s) (step-IsOwned e s h)

-- Under every schedule that gives each task no turn or at least five more than the loop has rounds,
-- whatever expires and whichever factories raise: each task that has had turns is done, and no lock
-- is left.
pub stampede_ends :
    (es : List Event)
    → ((i : ℕ) → (turns i es ≡ 0) ⊎ (rounds + 5 ≤ turns i es))
    → ((i : ℕ) → rounds + 5 ≤ turns i es → (run es start).phase i ≡ done)
      × ((run es start).lock ≡ false)
unfolding IsOwned
stampede_ends es fair = (
  ends,
  elim (Bool-cases (run es start).lock) [
    | inl l ↦ let (i, held) = run-IsOwned es start (λ l. cc) l in absurd (idle_or_done i held)
    | inr free ↦ free
  ],
)
  where
    ends : (i : ℕ) → rounds + 5 ≤ turns i es → (run es start).phase i ≡ done
    ends i h = done_of_turns_left _ (run-turns_left i es start h)

    idle_or_done : (i : ℕ) → holds ((run es start).phase i) ≡ true → ⊥
    idle_or_done i held = elim (fair i) [
      | inl none_had ↦ ground (arith, run-reading i es start none_had refl)
      | inr enough ↦ ground (arith, ends i enough)
    ]
