-- ===== src/Cache/Reads.antt =====
-- What the callers of `cache_get_or_set` (app/core/cache.py) get, and what stays in Redis.
use Prim.Native.String
use text.Mathlib.TextLemmas.{length-append}
use crypto_back.Prelude.{
  ℕ, ◌*◌, ◌<◌, ◌≡◌, str_eq, if◌then◌else◌, ◌≢◌, ap, refl, String, true, none, some, [], ◌∷◌, arith,
  eq_iff, eq_refl,
}
use crypto_back.Json.{Json, str}
use crypto_back.Errors.{Error}
use crypto_back.Exec.{ok, err, Exec}
use crypto_back.World.{World}
use crypto_back.Redis.{Redis, RedisLaws}
use crypto_back.Cache.{lock_of, cache_get, locked, cache_get_or_set}

-- A lock has another key than what it protects.
pub lock_of-ne : (key : String) → lock_of key ≢ key
lock_of-ne key e = absurd (omega (arith, length-append "lock:" key, ap String.count e))

module _ {S D : Type 0} (r : Redis S) (laws : RedisLaws r)
    (others : ℕ → World S D → World S D) where
  open laws use {get-setex, set_nx-result, get-set_nx, get-delete}

  -- The branch that takes the lock leaves none behind, whether the factory returns or raises.
  locked_releases :
      (key : String) (factory : Exec (World S D) Json) (ttl : ℕ) (w : World S D)
      → r.get (lock_of key) (locked r others key factory ttl w).1.store ≡ none
  unfolding locked
  locked_releases key factory ttl w = rw get-delete (rw eq_refl)

  module _ (key : String) (ttl lock_timeout : ℕ) (w : World S D) (ttl_pos : 0 < ttl)
      (timeout_pos : 0 < lock_timeout) (miss : cache_get r key w.store ≡ none)
      (free : r.get (lock_of key) w.store ≡ none) where
    -- The world once the lock is taken.
    abbrev pub with_lock : World S D
    with_lock = record w {
      store = (r.set_nx (lock_of key) (str "1") (lock_timeout * 1000) w.store).1;
    }

    pub still_missing : cache_get r key with_lock.store ≡ none
    unfolding cache_get
    still_missing = ground (
      arith,
      get-set_nx (lock_of key) key (str "1") (lock_timeout * 1000) w.store,
      eq_iff (lock_of key) key,
      lock_of-ne key,
    )

    acquires : (r.set_nx (lock_of key) (str "1") (lock_timeout * 1000) w.store).0 ≡ true
    acquires = ground (arith, set_nx-result (lock_of key) (str "1") (lock_timeout * 1000) w.store)

    enters :
        (factory : Exec (World S D) Json)
        → cache_get_or_set r others key factory ttl lock_timeout w
          ≡ locked r others key factory ttl with_lock
    unfolding cache_get_or_set
    enters factory = ground (arith, acquires, miss)

    fills :
        (factory : Exec (World S D) Json) (v : Json) (w' : World S D)
        → factory with_lock ≡ (ok v, w')
        → locked r others key factory ttl with_lock
          ≡ (ok v, record w' { store = r.delete (lock_of key ∷ []) (r.setex key ttl v w'.store) })
    unfolding locked
    fills factory v w' made = ground (arith, still_missing, made)

    raises :
        (factory : Exec (World S D) Json) (e : Error) (w' : World S D)
        → factory with_lock ≡ (err e, w')
        → locked r others key factory ttl with_lock
          ≡ (err e, record w' { store = r.delete (lock_of key ∷ []) w'.store })
    unfolding locked
    raises factory e w' made = ground (arith, still_missing, made)

    -- With the key missing and no lock held, the caller takes the lock, runs the factory once, and
    -- returns its value, which is then in the cache; the lock is gone and every other key is as the
    -- factory left it.
    pub winner_fills :
        (factory : Exec (World S D) Json) (v : Json) (w' : World S D) (j : String)
        → factory with_lock ≡ (ok v, w')
        → let (result, end) = cache_get_or_set r others key factory ttl lock_timeout w in
          (result ≡ ok v)
          × (r.get j end.store ≡ (
              if str_eq j key
              then some v
              else if str_eq j (lock_of key)
              then none
              else r.get j w'.store))
    winner_fills factory v w' j made = rw (enters factory) (
        rw (fills factory v w' made) (
          refl,
          ground (
            arith,
            get-delete (lock_of key ∷ []) j (r.setex key ttl v w'.store),
            get-setex key j ttl v w'.store ttl_pos,
            eq_iff (lock_of key) j,
            eq_iff key j,
            eq_iff j key,
            eq_iff j (lock_of key),
            lock_of-ne key,
          ),
        ))

    -- If the factory raises instead, so does the caller, the lock is gone all the same, and every
    -- other key, the missing one included, is as the factory left it.
    pub winner_raises :
        (factory : Exec (World S D) Json) (e : Error) (w' : World S D) (j : String)
        → factory with_lock ≡ (err e, w')
        → let (result, end) = cache_get_or_set r others key factory ttl lock_timeout w in
          (result ≡ err e)
          × (r.get j end.store ≡ (if str_eq j (lock_of key) then none else r.get j w'.store))
    winner_raises factory e w' j made = rw (enters factory) (
        rw (raises factory e w' made) (
          refl,
          ground (
            arith,
            get-delete (lock_of key ∷ []) j w'.store,
            eq_iff (lock_of key) j,
            eq_iff j (lock_of key),
          ),
        ))

    -- The breaker of Claude is as the factory left it.
    pub winner_raises_breaker :
        (factory : Exec (World S D) Json) (e : Error) (w' : World S D)
        → factory with_lock ≡ (err e, w')
        → (cache_get_or_set r others key factory ttl lock_timeout w).1.claude_breaker
          ≡ w'.claude_breaker
    winner_raises_breaker factory e w' made =
        rw (enters factory) (rw (raises factory e w' made) refl)
