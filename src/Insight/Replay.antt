-- ===== src/Insight/Replay.antt =====
-- Two requests for the insight of one coin (app/services/ai_insight_service.py).
use Prim.Native.String
use crypto_back.Prelude.{ℕ, ◌≡◌, ◌∙◌, eq_refl, refl, String, false, none, some, List, arith}
use crypto_back.Json.{Json}
use crypto_back.Errors.{other_error, type_error}
use crypto_back.Exec.{Result, ok, err}
use crypto_back.Breaker.{closed, record_success}
use crypto_back.Metrics.{cache_misses, ai_insight_requests, ai_insight_latency}
use crypto_back.Breaker.Block.{async_with}
use crypto_back.World.{World, emit}
use crypto_back.Redis.{Redis, RedisLaws}
use crypto_back.Cache.{lock_of, cache_get, cache_get_or_set}
use crypto_back.Cache.Reads.{with_lock, winner_fills}
use crypto_back.Insight.{
  Texts, Price, InsightResponse, insight_response, model_dump, unpack, unpack_cached, prompt,
  Claude, generate_insight_async, generate, fresh_insight, cached_insight, get_insight,
}

module _ (t : Texts) (resp : InsightResponse) where
  -- Reading back what `model_dump` wrote gives the response again.
  pub unpack-model_dump : unpack t (model_dump t resp) ≡ ok resp
  unfolding insight_response model_dump
  unpack-model_dump = ground (arith, t.parse-time_text resp.generated_at)

  -- With the keyword `cached` given once more Python refuses the call.
  unpack_cached-model_dump : unpack_cached t (model_dump t resp) ≡ err (other_error type_error)
  unfolding unpack_cached model_dump
  unpack_cached-model_dump = refl

module _ {S D : Type 0} (r : Redis S) (laws : RedisLaws r) (others : ℕ → World S D → World S D)
    (t : Texts) (claude : Claude (World S D)) where
  -- A cached response of this service is found, and refused.
  hit_raises :
      (coin_id : String) (prices : List Price) (resp : InsightResponse) (w : World S D)
      → r.get (String.◌++◌ "insight:" coin_id) w.store ≡ some (model_dump t resp)
      → (get_insight r others t claude coin_id prices w).0 ≡ err (other_error type_error)
  unfolding get_insight cached_insight model_dump
  hit_raises coin_id prices resp w hit = ground arith

  -- The API answers `text` to every prompt, and no other task runs meanwhile.
  abbrev pub Answers : String → Type 0
  Answers text = (p : String) (w : World S D) → claude p w ≡ (ok text, w)

  abbrev pub answered : String → String → World S D → InsightResponse
  answered coin_id text w = record {
    coin_id = coin_id;
    insight = text;
    generated_at = w.now;
    cached = false;
  }

  -- The state after the factory of `get_insight`.
  abbrev after_generate : World S D → World S D
  after_generate w =
      emit ai_insight_latency (record w { claude_breaker = record_success w.claude_breaker })

  generates :
      (coin_id text : String) (prices : List Price) (w : World S D)
      → Answers text
      → w.claude_breaker.state ≡ closed
      → generate r others t claude coin_id prices w
        ≡ (ok (model_dump t (answered coin_id text w)), after_generate w)
  unfolding generate record_success async_with generate_insight_async
  generates coin_id text prices w answers c = ground (arith, answers (prompt t coin_id prices) w)

  module _ (coin_id text : String) (prices : List Price) (w : World S D) (answers : Answers text)
      (closed_breaker : w.claude_breaker.state ≡ closed)
      (miss : cache_get r (String.◌++◌ "insight:" coin_id) w.store ≡ none)
      (free : r.get (lock_of (String.◌++◌ "insight:" coin_id)) w.store ≡ none) where
    -- The state when the cache is asked.
    abbrev counted : World S D
    counted = emit (ai_insight_requests "claude_api") (emit (cache_misses "insight") w)

    abbrev asked : Result Json × World S D
    asked =
        cache_get_or_set r others (String.◌++◌ "insight:" coin_id)
          (generate r others t claude coin_id prices) 3600 10 counted

    asked_lem :
        (asked.0 ≡ ok (model_dump t (answered coin_id text w)))
        × (r.get (String.◌++◌ "insight:" coin_id) asked.1.store
            ≡ some (model_dump t (answered coin_id text w)))
    asked_lem =
        let key = String.◌++◌ "insight:" coin_id in
        let lock =
          with_lock r laws others key 3600 10 counted (omega arith) (omega arith) miss free in
        let filled =
          winner_fills r laws others key 3600 10 counted (omega arith) (omega arith) miss free
            (generate r others t claude coin_id prices) (model_dump t (answered coin_id text w))
            (after_generate lock) key (generates coin_id text prices lock answers closed_breaker) in
        (filled.0, filled.1 ∙ rw eq_refl)

    first_request :
        let (result, w') = get_insight r others t claude coin_id prices w in
        (result ≡ ok (answered coin_id text w))
        × (r.get (String.◌++◌ "insight:" coin_id) w'.store
            ≡ some (model_dump t (answered coin_id text w)))
    unfolding get_insight fresh_insight
    first_request = ground (arith, miss, asked_lem, unpack-model_dump t (answered coin_id text w))

    -- With nothing cached, no lock held and the breaker closed, the first request for the insight of
    -- a coin returns the text of the API, and a second request for it raises `TypeError`, since the
    -- cached response has its own `cached`.
    pub second_request_raises :
        (prices' : List Price)
        → let (result, w') = get_insight r others t claude coin_id prices w in
          (result ≡ ok (answered coin_id text w))
          × ((get_insight r others t claude coin_id prices' w').0 ≡ err (other_error type_error))
    second_request_raises prices' = (
      first_request.0,
      hit_raises coin_id prices' (answered coin_id text w)
          (get_insight r others t claude coin_id prices w).1 first_request.1,
    )
