-- ===== src/Cache/Stampede/Exclusion.antt =====
-- The tasks that hold the lock of a key (app/core/cache.py).
use crypto_back.Prelude.{ℕ, ◌≡◌, refl, Bool, true, false, List, [], ◌∷◌, All, arith}
use crypto_back.Cache.Stampede.{
  Phase, locking, checking, computing, storing, releasing, System, Event, advance, fail,
  expire_lock, expire_key, turn, raised, step, run, start,
}

abbrev pub holds : Phase → Bool
holds checking = true
holds computing = true
holds storing = true
holds releasing = true
holds p = false

-- Whoever holds the lock, it is there, and no two tasks hold it.
pub record IsExclusive (s : System) : Type 0 where
  pub locked : (i : ℕ) → holds (s.phase i) ≡ true → s.lock ≡ true
  pub unique : (i j : ℕ) → holds (s.phase i) ≡ true → holds (s.phase j) ≡ true → i ≡ j

abbrev pub LockStays : Event → Type 0
LockStays expire_lock = ⊥
LockStays e = Unit

turn-IsExclusive :
    (i : ℕ) (p : Phase) (s : System) → s.phase i ≡ p → IsExclusive s → IsExclusive (turn i p s)
unfolding turn
turn-IsExclusive i locking s e h = record {
  locked = λ k. ground (arith, h.locked k, h.locked i);
  unique = λ k l. ground (arith, h.unique k l, h.locked k, h.locked l);
}
turn-IsExclusive i p s e h = record {
  locked = λ k. ground (arith, h.locked k, h.locked i, h.unique i k);
  unique = λ k l. ground (arith, h.unique k l, h.unique i k, h.unique i l);
}

raised-IsExclusive :
    (i : ℕ) (p : Phase) (s : System) → s.phase i ≡ p → IsExclusive s → IsExclusive (raised i p s)
unfolding raised
raised-IsExclusive i computing s e h = record {
  locked = λ k. ground (arith, h.locked k, h.locked i, h.unique i k);
  unique = λ k l. ground (arith, h.unique k l, h.unique i k, h.unique i l);
}
raised-IsExclusive i p s e h = record {
  locked = λ k. ground (arith, h.locked k, h.locked i, h.unique i k);
  unique = λ k l. ground (arith, h.unique k l, h.unique i k, h.unique i l);
}

pub step-IsExclusive :
    (e : Event) (s : System) → LockStays e → IsExclusive s → IsExclusive (step e s)
unfolding step
step-IsExclusive (advance i) s k h = turn-IsExclusive i (s.phase i) s refl h
step-IsExclusive (fail i) s k h = raised-IsExclusive i (s.phase i) s refl h
step-IsExclusive expire_lock s k h = absurd k
step-IsExclusive expire_key s k h = record { locked = h.locked; unique = h.unique }

run-IsExclusive :
    (es : List Event) (s : System) → All LockStays es → IsExclusive s → IsExclusive (run es s)
unfolding run
run-IsExclusive [] s k h = h
run-IsExclusive (e ∷ es) s k h = run-IsExclusive es (step e s) k.1 (step-IsExclusive e s k.0 h)

pub start-IsExclusive : IsExclusive start
start-IsExclusive = record { locked = λ i h. cc; unique = λ i j h k. cc }

-- Under every schedule in which the lock does not expire, factories that raise and an expiring key
-- included, no two tasks are at once between taking the lock and releasing it.
pub stampede_exclusion :
    (es : List Event)
    → All LockStays es
    → (i j : ℕ) → holds ((run es start).phase i) ≡ true
    → holds ((run es start).phase j) ≡ true
    → i ≡ j
stampede_exclusion es stays = (run-IsExclusive es start stays start-IsExclusive).unique
