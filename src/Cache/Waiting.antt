-- ===== src/Cache/Waiting.antt =====
-- A caller of `cache_get_or_set` (app/core/cache.py) that finds the lock held.
use crypto_back.Prelude.{
  ℕ, zero, suc, ◌*◌, ◌≤◌, ◌<◌, ◌≡◌, refl, String, true, false, none, some, arith, ◌⊎◌, inl, inr,
  Option-cases, ◌∙◌, is_some,
}
use crypto_back.Json.{Json, str}
use crypto_back.Exec.{Result, ok, Exec}
use crypto_back.World.{World}
use crypto_back.Redis.{Redis, RedisLaws}
use crypto_back.Cache.{lock_of, cache_get, compute, poll, cache_get_or_set}

module _ {S D : Type 0} (r : Redis S) (others : ℕ → World S D → World S D) where
  -- The state after the first `k` of `n` sleeps.
  abbrev pub after_sleeps : ℕ → ℕ → World S D → World S D
  after_sleeps n zero w = w
  after_sleeps zero (suc k) w = w
  after_sleeps (suc n) (suc k) w = after_sleeps n k (others n w)

  -- One of `n` polls finds `v` in the cache, and that is what the caller returns; it stores nothing
  -- and leaves the state as the other tasks made it.
  pub record Found (key : String) (n : ℕ) (w : World S D) (t : Result Json × World S D)
      : Type 0 where
    pub polls : ℕ
    pub within : polls ≤ n
    pub value : Json
    pub seen : cache_get r key (after_sleeps n polls w).store ≡ some value
    pub returned : t ≡ (ok value, after_sleeps n polls w)

  -- No poll finds anything, and the caller computes the value after the last one.
  pub record GaveUp (key : String) (factory : Exec (World S D) Json) (ttl n : ℕ) (w : World S D)
      (t : Result Json × World S D) : Type 0 where
    pub all_missed : (k : ℕ) → k < n → cache_get r key (after_sleeps n (suc k) w).store ≡ none
    pub computed : t ≡ compute r others key factory ttl (after_sleeps n n w)

  module _ (n : ℕ) (key : String) (factory : Exec (World S D) Json) (ttl : ℕ) (w : World S D) where
    poll_found :
        (v : Json)
        → cache_get r key (others n w).store ≡ some v
        → poll r others (suc n) key factory ttl w ≡ (ok v, others n w)
    unfolding poll
    poll_found v e = ground (arith, e)

    poll_missed :
        cache_get r key (others n w).store ≡ none
        → poll r others (suc n) key factory ttl w ≡ poll r others n key factory ttl (others n w)
    unfolding poll
    poll_missed e = ground (arith, e)

    later_missed :
        cache_get r key (others n w).store ≡ none
        → ((k : ℕ) → k < n → cache_get r key (after_sleeps n (suc k) (others n w)).store ≡ none)
        → (k : ℕ) → k < suc n
        → cache_get r key (after_sleeps (suc n) (suc k) w).store ≡ none
    later_missed e all zero h = e
    later_missed e all (suc k) h = all k (omega arith)

    later :
        cache_get r key (others n w).store ≡ none
        → let t = poll r others n key factory ttl (others n w) in
          Found key n (others n w) t ⊎ GaveUp key factory ttl n (others n w) t
          → let t = poll r others (suc n) key factory ttl w in
            Found key (suc n) w t ⊎ GaveUp key factory ttl (suc n) w t
    later e (inl f) = inl (record {
      polls = suc f.polls;
      within = omega (arith, f.within);
      value = f.value;
      seen = f.seen;
      returned = poll_missed e ∙ f.returned;
    })
    later e (inr g) =
        inr (record {
          all_missed = later_missed e g.all_missed;
          computed = poll_missed e ∙ g.computed;
        })

  poll_outcome :
      (n : ℕ) (key : String) (factory : Exec (World S D) Json) (ttl : ℕ) (w : World S D)
      → let t = poll r others n key factory ttl w in Found key n w t ⊎ GaveUp key factory ttl n w t
  unfolding poll
  poll_outcome zero key factory ttl w =
      inr (record { all_missed = λ k h. absurd (omega arith); computed = refl })
  poll_outcome (suc n) key factory ttl w =
      elim (Option-cases (cache_get r key (others n w).store)) [
        | inl e ↦ later n key factory ttl w e (poll_outcome n key factory ttl (others n w))
        | inr (v, e) ↦ inl (record {
          polls = 1;
          within = omega arith;
          value = v;
          seen = e;
          returned = poll_found n key factory ttl w v e;
        })
      ]

  waits :
      (key : String) (factory : Exec (World S D) Json) (ttl lock_timeout : ℕ) (w : World S D)
      → cache_get r key w.store ≡ none
      → (r.set_nx (lock_of key) (str "1") (lock_timeout * 1000) w.store).0 ≡ false
      → cache_get_or_set r others key factory ttl lock_timeout w
        ≡ poll r others (lock_timeout * 10) key factory ttl (record w {
          store = (r.set_nx (lock_of key) (str "1") (lock_timeout * 1000) w.store).1;
        })
  unfolding cache_get_or_set
  waits key factory ttl lock_timeout w miss held = ground arith

module _ {S D : Type 0} (r : Redis S) (laws : RedisLaws r)
    (others : ℕ → World S D → World S D) where
  -- A caller that misses while another holds the lock sleeps and polls up to `10 * lock_timeout`
  -- times. It returns a value that one of the polls found, storing nothing; or every poll misses,
  -- and it runs the factory itself and stores the value, though it holds no lock.
  pub waiter_outcome :
      (key : String) (factory : Exec (World S D) Json) (ttl lock_timeout : ℕ) (w : World S D)
      → cache_get r key w.store ≡ none
      → is_some (r.get (lock_of key) w.store) ≡ true
      → let n = lock_timeout * 10 in
        let t = cache_get_or_set r others key factory ttl lock_timeout w in
        let w' = record w {
          store = (r.set_nx (lock_of key) (str "1") (lock_timeout * 1000) w.store).1;
        } in
        Found r others key n w' t ⊎ GaveUp r others key factory ttl n w' t
  waiter_outcome key factory ttl lock_timeout w miss held =
      let refused : (r.set_nx (lock_of key) (str "1") (lock_timeout * 1000) w.store).0 ≡ false =
        ground (arith, laws.set_nx-result (lock_of key) (str "1") (lock_timeout * 1000) w.store) in
      rw (waits r others key factory ttl lock_timeout w miss refused) (
        poll_outcome r others (lock_timeout * 10) key factory ttl
          (record w { store = (r.set_nx (lock_of key) (str "1") (lock_timeout * 1000) w.store).1 }))
