-- ===== src/Cache.antt =====
-- app/core/cache.py. A function that only reads or writes Redis works on its state; a value that is
-- JSON `null` reads as a miss, as in the source. `close_redis` and `get_redis` only manage the
-- connection.
pub mod Reads
pub mod Waiting
pub mod Pattern
pub mod Stampede
use Prim.Native.String
use crypto_back.Prelude.{
  ℕ, zero, suc, ◌*◌, String, Bool, true, false, Option, none, some, List, [], ◌∷◌, ◌++◌, leb,
  length, if◌then◌else◌,
}
use crypto_back.Json.{Json, null, str}
use crypto_back.Errors.{Error}
use crypto_back.Exec.{Result, ok, err, Exec, finally}
use crypto_back.World.{World}
use crypto_back.Redis.{Redis}

-- `json.loads` of a stored text, which may be `None`.
abbrev pub not_none : Option Json → Option Json
not_none (some null) = none
not_none o = o

-- `f"lock:{key}"`
abbrev pub lock_of : String → String
lock_of key = String.◌++◌ "lock:" key

module _ {S : Type 0} (r : Redis S) where
  unfoldable pub cache_get : String → S → Option Json
  cache_get key s = not_none (r.get key s)

  unfoldable pub cache_set : String → Json → ℕ → S → S
  cache_set key value ttl s = r.setex key ttl value s

  unfoldable pub cache_delete : String → S → S
  cache_delete key s = r.delete (key ∷ []) s

  -- The loop of `cache_delete_pattern`: a batch of a hundred keys is deleted at once.
  unfoldable pub delete_batches : List String → List String → S → S
  delete_batches [] [] s = s
  delete_batches [] (k ∷ batch) s = r.delete (k ∷ batch) s
  delete_batches (key ∷ keys) batch s =
      let batch' = batch ++ key ∷ [] in
      elim (leb 100 (length batch')) [
        | true ↦ delete_batches keys [] (r.delete batch' s)
        | false ↦ delete_batches keys batch' s
      ]

  -- `cache_delete_pattern(prefix + "*")`
  unfoldable pub cache_delete_pattern : String → S → S
  unfolding delete_batches
  cache_delete_pattern prefix s = delete_batches (r.scan_iter prefix s) [] s

-- `others i` is what the other tasks do while this one sleeps for the `i`-th time.
module _ {S D : Type 0} (r : Redis S) (others : ℕ → World S D → World S D) where
  abbrev pub keep : String → ℕ → Result Json × World S D → Result Json × World S D
  unfolding cache_set
  keep key ttl (ok value, w) = (ok value, record w { store = cache_set r key value ttl w.store })
  keep key ttl (err e, w) = (err e, w)

  -- `value = await factory(); await cache_set(...); return value`
  unfoldable pub compute : String → Exec (World S D) Json → ℕ → Exec (World S D) Json
  unfolding keep
  compute key factory ttl w = keep key ttl (factory w)

  abbrev or_compute : Option Json → String → Exec (World S D) Json → ℕ → Exec (World S D) Json
  unfolding compute
  or_compute (some v) key factory ttl w = (ok v, w)
  or_compute none key factory ttl w = compute key factory ttl w

  -- The branch that holds the lock.
  unfoldable pub locked : String → Exec (World S D) Json → ℕ → Exec (World S D) Json
  unfolding or_compute cache_get
  locked key factory ttl =
      finally (λ w. or_compute (cache_get r key w.store) key factory ttl w)
        (λ w. record w { store = r.delete (lock_of key ∷ []) w.store })

  -- The branch that waits for the holder, for so many more rounds.
  unfoldable pub poll : ℕ → String → Exec (World S D) Json → ℕ → Exec (World S D) Json
  unfolding compute cache_get
  poll zero key factory ttl w = compute key factory ttl w
  poll (suc n) key factory ttl w =
      let w' = others n w in
      elim (cache_get r key w'.store) [ some v ↦ (ok v, w') | none ↦ poll n key factory ttl w' ]

  unfoldable pub cache_get_or_set : String → Exec (World S D) Json → ℕ → ℕ → Exec (World S D) Json
  unfolding locked poll cache_get
  cache_get_or_set key factory ttl lock_timeout w =
      let (acquired, s) = r.set_nx (lock_of key) (str "1") (lock_timeout * 1000) w.store in
      let w' = record w { store = s } in
      elim (cache_get r key w.store) [
        | some v ↦ (ok v, w)
        | none ↦
            if acquired
            then locked key factory ttl w'
            else poll (lock_timeout * 10) key factory ttl w'
      ]
