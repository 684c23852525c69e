-- ===== src/Insight/Failures.antt =====
-- The insight service (app/services/ai_insight_service.py) when the API fails.
use Prim.Native.String
use crypto_back.Prelude.{ℕ, ◌≡◌, eq_refl, ap, ◌∙◌, String, false, none, some, List, arith, eq_iff}
use crypto_back.Json.{Json, str}
use crypto_back.Errors.{Error, class_of, issubclass, api_error}
use crypto_back.Breaker.{closed, aexit}
use crypto_back.Breaker.Block.{async_with_closed, leave_block}
use crypto_back.Metrics.{cache_misses, ai_insight_requests}
use crypto_back.Exec.{Result, err}
use crypto_back.World.{World, emit}
use crypto_back.Redis.{Redis, RedisLaws}
use crypto_back.Cache.{not_none, lock_of, cache_get, cache_get_or_set}
use crypto_back.Cache.Reads.{with_lock, winner_raises, winner_raises_breaker, lock_of-ne}
use crypto_back.Insight.{
  claude_access, Texts, Price, map_anthropic, prompt, Claude, generate_insight_async, generate,
  fresh_insight, get_insight,
}

-- No exception of the Anthropic package is left.
map_anthropic-class : (e : Error) → issubclass (class_of (map_anthropic e)) api_error ≡ false
unfolding map_anthropic
map_anthropic-class e = ground arith

module _ {S D : Type 0} (r : Redis S) (laws : RedisLaws r) (others : ℕ → World S D → World S D)
    (t : Texts) (claude : Claude (World S D)) (coin_id : String) (prices : List Price)
    (w : World S D) where
  -- The API raises `e` at every prompt, and no other task runs meanwhile.
  abbrev pub Fails : Error → Type 0
  Fails e = (p : String) (v : World S D) → claude p v ≡ (err e, v)

  abbrev after_failure : Error → World S D → World S D
  after_failure e v = record v {
    claude_breaker = aexit v.monotonic (some (map_anthropic e)) v.claude_breaker;
  }

  asks :
      (e : Error) (v : World S D)
      → Fails e
      → generate_insight_async r others t claude coin_id prices v ≡ (err (map_anthropic e), v)
  unfolding generate_insight_async
  asks e v fails = rw (fails (prompt t coin_id prices) v)

  generate-Fails :
      (e : Error) (v : World S D)
      → Fails e
      → v.claude_breaker.state ≡ closed
      → generate r others t claude coin_id prices v ≡ (err (map_anthropic e), after_failure e v)
  unfolding generate leave_block
  generate-Fails e v fails c =
      rw
        (async_with_closed claude_access (generate_insight_async r others t claude coin_id prices) v
          c)
        (rw (asks e v fails))

  module _ (e : Error) (fails : Fails e) (closed_breaker : w.claude_breaker.state ≡ closed)
      (miss : cache_get r (String.◌++◌ "insight:" coin_id) w.store ≡ none)
      (free : r.get (lock_of (String.◌++◌ "insight:" coin_id)) w.store ≡ none) where
    abbrev counted : World S D
    counted = emit (ai_insight_requests "claude_api") (emit (cache_misses "insight") w)

    abbrev asked : Result Json × World S D
    asked =
        cache_get_or_set r others (String.◌++◌ "insight:" coin_id)
          (generate r others t claude coin_id prices) 3600 10 counted

    key_missing :
        let locked =
          with_lock r laws others
            (String.◌++◌ "insight:" coin_id)
            3600
            10
            counted
            (omega arith)
            (omega arith)
            miss
            free in
        cache_get r (String.◌++◌ "insight:" coin_id) locked.store ≡ none
    unfolding cache_get
    key_missing =
        let key = String.◌++◌ "insight:" coin_id in
        ground (
          arith,
          laws.get-set_nx (lock_of key) key (str "1") 10000 w.store,
          eq_iff (lock_of key) key,
          lock_of-ne key,
        )

    asked_lem :
        (asked.0 ≡ err (map_anthropic e))
        × (r.get (lock_of (String.◌++◌ "insight:" coin_id)) asked.1.store ≡ none)
        × (cache_get r (String.◌++◌ "insight:" coin_id) asked.1.store ≡ none)
        × (asked.1.claude_breaker ≡ aexit w.monotonic (some (map_anthropic e)) w.claude_breaker)
    unfolding cache_get
    asked_lem =
        let key = String.◌++◌ "insight:" coin_id in
        let lock =
          with_lock r laws others key 3600 10 counted (omega arith) (omega arith) miss free in
        let failed = λ (j : String).
          winner_raises r laws others key 3600 10 counted (omega arith) (omega arith) miss free
            (generate r others t claude coin_id prices) (map_anthropic e) (after_failure e lock) j
            (generate-Fails e lock fails closed_breaker) in
        (
          (failed key).0,
          ground (arith, failed (lock_of key), eq_refl (lock_of key)),
          ap not_none (ground (arith, failed key, eq_iff key (lock_of key), lock_of-ne key))
              ∙ key_missing,
          winner_raises_breaker r laws others key 3600 10 counted (omega arith) (omega arith) miss
              free (generate r others t claude coin_id prices) (map_anthropic e)
              (after_failure e lock) (generate-Fails e lock fails closed_breaker),
        )

    -- With nothing cached, no lock held and the breaker closed, an API that raises at every prompt, and
    -- changes nothing, makes the request raise the mapped exception, which is none of the Anthropic
    -- package; the lock is released, nothing is cached, and the breaker is as after one `__aexit__`
    -- with that exception.
    pub api_failure :
        let (result, w') = get_insight r others t claude coin_id prices w in
        (result ≡ err (map_anthropic e))
        × (issubclass (class_of (map_anthropic e)) api_error ≡ false)
        × (r.get (lock_of (String.◌++◌ "insight:" coin_id)) w'.store ≡ none)
        × (cache_get r (String.◌++◌ "insight:" coin_id) w'.store ≡ none)
        × (w'.claude_breaker ≡ aexit w.monotonic (some (map_anthropic e)) w.claude_breaker)
    unfolding get_insight fresh_insight cache_get
    api_failure = ground (arith, miss, asked_lem, map_anthropic-class e)
