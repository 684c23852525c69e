-- ===== src/Cache/Stampede.antt =====
-- `cache_get_or_set` of app/core/cache.py run by any number of tasks for one key. Between two of its
-- `await`s a task is in one phase, and a schedule says whose turn it is; the lock and the cached value
-- may also expire. What is kept of Redis is whether the key and its lock are there.
pub mod Exclusion
pub mod Once
pub mod Progress
use crypto_back.Prelude.{ℕ, zero, suc, ◌+◌, Bool, true, false, List, [], ◌∷◌, ◌==◌, if◌then◌else◌}

pub data Phase : Type 0 where
  -- before the first `cache_get`, and before `r.set(lock_key, ...)`
  reading locking : Phase
  -- with the lock: before the second `cache_get`, in `factory()`, before `cache_set`, before
  -- `r.delete(lock_key)`
  checking computing storing releasing : Phase
  -- without it: in the loop with so many rounds left, in `factory()`, before `cache_set`
  waiting : ℕ → Phase
  computing_alone storing_alone : Phase
  done : Phase

pub record System : Type 0 where
  pub filled : Bool
  pub lock : Bool
  pub phase : ℕ → Phase
  -- how often the factory was called with the lock held, and without it
  pub calls : ℕ
  pub calls_alone : ℕ

pub data Event : Type 0 where
  -- the task's next `await` is over
  advance : ℕ → Event
  -- the same, but what it waited for raised
  fail : ℕ → Event
  expire_lock expire_key : Event

abbrev pub set_phase : (ℕ → Phase) → ℕ → Phase → ℕ → Phase
set_phase f i p j = if j == i then p else f j

abbrev pub move : ℕ → Phase → System → System
move i p s = record s { phase = set_phase s.phase i p }

-- `lock_timeout * 10` rounds, with the default of 10 seconds
abbrev pub rounds : ℕ
rounds = 100

-- One turn of task `i`, which is in the given phase.
unfoldable pub turn : ℕ → Phase → System → System
turn i reading s = if s.filled then move i done s else move i locking s
turn i locking s =
    if s.lock then move i (waiting rounds) s else move i checking (record s { lock = true })
turn i checking s =
    if s.filled then move i releasing s else move i computing (record s { calls = s.calls + 1 })
turn i computing s = move i storing s
turn i storing s = move i releasing (record s { filled = true })
turn i releasing s = move i done (record s { lock = false })
turn i (waiting zero) s = move i computing_alone (record s { calls_alone = s.calls_alone + 1 })
turn i (waiting (suc n)) s = if s.filled then move i done s else move i (waiting n) s
turn i computing_alone s = move i storing_alone s
turn i storing_alone s = move i done (record s { filled = true })
turn i done s = s

-- The factory raises: the holder of the lock runs its `finally`, another task is over.
unfoldable pub raised : ℕ → Phase → System → System
raised i computing s = move i releasing s
raised i computing_alone s = move i done s
raised i p s = s

unfoldable pub step : Event → System → System
unfolding turn raised
step (advance i) s = turn i (s.phase i) s
step (fail i) s = raised i (s.phase i) s
step expire_lock s = record s { lock = false }
step expire_key s = record s { filled = false }

unfoldable pub run : List Event → System → System
unfolding step
run [] s = s
run (e ∷ es) s = run es (step e s)

-- Every task is about to read, and the key and the lock are missing.
abbrev pub start : System
start = record { filled = false; lock = false; phase = λ i. reading; calls = 0; calls_alone = 0 }
