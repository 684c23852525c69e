-- ===== src/Tests/CacheTests.antt =====
-- The cache of app/core/cache.py.
use crypto_back.Prelude.{
  ℕ, zero, suc, ◌+◌, ◌==◌, if◌then◌else◌, false, ◌≤◌, ◌≡◌, ◌⊎◌, refl, true, none, some, List, [],
  ◌∷◌, arith,
}
use crypto_back.Prelude.Int.{pos}
use crypto_back.Json.{Json, str, num}
use crypto_back.Errors.{not_found_error}
use crypto_back.Exec.{ok, err, Exec}
use crypto_back.World.{World}
use crypto_back.Redis.Memory.{Memory, memory, memory-RedisLaws}
use crypto_back.Cache.{lock_of, cache_get, cache_get_or_set, cache_delete_pattern}
use crypto_back.Cache.Reads.{winner_fills, winner_raises}
use crypto_back.Cache.Waiting.{Found, GaveUp, waiter_outcome}
use crypto_back.Cache.Pattern.{get-cache_delete_pattern}
use crypto_back.Cache.Stampede.{Event, advance, computing, done, rounds, run, start}
use crypto_back.Cache.Stampede.Exclusion.{holds, stampede_exclusion}
use crypto_back.Cache.Stampede.Once.{stampede_once, overlapping, expired_lock_overlaps}
use crypto_back.Cache.Stampede.Progress.{turns, stampede_ends}
use crypto_back.Tests.Samples.{quiet, world}

abbrev W : Type 0
W = World Memory (Unit {0})

abbrev empty : W
empty = world [] tt

abbrev makes : Exec W Json
makes w = (ok (str "fresh"), w)

abbrev fails : Exec W Json
fails w = (err (not_found_error "no coin"), w)

miss : cache_get memory "k" empty.store ≡ none
unfolding cache_get
miss = refl

-- A miss runs the factory and stores what it made.
get_or_set-miss :
    cache_get_or_set memory (quiet {W = W}) "k" makes 60 10 empty
    ≡ (ok (str "fresh"), world (("k", str "fresh") ∷ []) tt)
unfolding cache_get_or_set
get_or_set-miss = refl

winner_fills_example :
    let (result, end) = cache_get_or_set memory (quiet {W = W}) "k" makes 60 10 empty in
    (result ≡ ok (str "fresh")) × (memory.get "k" end.store ≡ some (str "fresh"))
winner_fills_example =
    winner_fills memory memory-RedisLaws (quiet {W = W}) "k" 60 10 empty (omega arith) (omega arith)
      miss refl makes (str "fresh") (world ((lock_of "k", str "1") ∷ []) tt) "k" refl

winner_raises_test :
    let (result, end) = cache_get_or_set memory (quiet {W = W}) "k" fails 60 10 empty in
    (result ≡ err (not_found_error "no coin")) × (memory.get (lock_of "k") end.store ≡ none)
winner_raises_test =
    winner_raises memory memory-RedisLaws (quiet {W = W}) "k" 60 10 empty (omega arith)
      (omega arith) miss refl fails (not_found_error "no coin")
      (world ((lock_of "k", str "1") ∷ []) tt) (lock_of "k") refl

-- Another task holds the lock.
abbrev busy : W
busy = world ((lock_of "k", str "1") ∷ []) tt

busy-miss : cache_get memory "k" busy.store ≡ none
unfolding cache_get
busy-miss = refl

waiter_outcome_example :
    let t = cache_get_or_set memory (quiet {W = W}) "k" makes 60 10 busy in
    Found memory (quiet {W = W}) "k" 100 busy t
    ⊎ GaveUp memory (quiet {W = W}) "k" makes 60 100 busy t
waiter_outcome_example =
    waiter_outcome memory memory-RedisLaws (quiet {W = W}) "k" makes 60 10 busy busy-miss refl

abbrev listed : Memory
listed = ("coins:list:1", num (pos 1)) ∷ ("coins:detail:7", num (pos 2)) ∷ []

get-cache_delete_pattern_test :
    memory.get "coins:list:1" (cache_delete_pattern memory "coins:list:" listed) ≡ none
get-cache_delete_pattern_test =
    get-cache_delete_pattern memory memory-RedisLaws "coins:list:" "coins:list:1" listed

-- Task 1 waits for task 0, which expires nothing.
abbrev schedule : List Event
schedule =
    advance 0
    ∷ advance 1
    ∷ advance 0
    ∷ advance 1
    ∷ advance 0
    ∷ advance 0
    ∷ advance 0
    ∷ advance 1
    ∷ []

-- Task 0 has the lock, and task 1 waits.
abbrev held : List Event
held = advance 0 ∷ advance 1 ∷ advance 0 ∷ advance 1 ∷ []

held_lem : holds ((run held start).phase 0) ≡ true
unfolding run
held_lem = refl

stampede_exclusion_example : ◌≡◌ {A = ℕ} 0 0
stampede_exclusion_example = stampede_exclusion held (omega arith) 0 0 held_lem held_lem

stampede_once_example : (run schedule start).calls ≤ 1
stampede_once_example = stampede_once schedule (omega arith)

expired_lock_overlaps_example :
    let s = run (overlapping 3) start in (s.calls ≡ 3) × (s.phase 1 ≡ computing)
expired_lock_overlaps_example = expired_lock_overlaps 3 1 (omega arith)

-- `n` turns of task `i`, and then others.
abbrev many : ℕ → ℕ → List Event → List Event
many zero i es = es
many (suc n) i es = advance i ∷ many n i es

turns-many :
    (k n i : ℕ) (es : List Event) → turns k (many n i es) ≡ (if i == k then n else 0) + turns k es
turns-many k zero i es = ground arith
turns-many k (suc n) i es = ground (arith, turns-many k n i es)

-- Task 0 takes the lock, and task 1 waits in vain.
abbrev long : List Event
long = advance 0 ∷ advance 0 ∷ many 105 1 (many 105 0 [])

long_lem : (i : ℕ) → (turns i long ≡ 0) ⊎ (rounds + 5 ≤ turns i long)
long_lem i = ground (arith, turns-many i 105 1 (many 105 0 []), turns-many i 105 0 [])

stampede_ends_example :
    ((i : ℕ) → rounds + 5 ≤ turns i long → (run long start).phase i ≡ done)
    × ((run long start).lock ≡ false)
stampede_ends_example = stampede_ends long long_lem
