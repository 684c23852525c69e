-- ===== src/Insight.antt =====
-- app/services/ai_insight_service.py: `class AIInsightService`, with `InsightResponse` of
-- app/schemas/cryptocurrency.py. The Anthropic client, the text of a time and number formatting are
-- parameters.
pub mod Replay
pub mod Failures
use Prim.Native.String
use crypto_back.Prelude.{
  ℕ, zero, suc, ◌+◌, ◌-◌, ◌≡◌, String, Bool, true, false, Option, none, some, List, [], ◌∷◌, ◌++◌,
  map, length, drop, if◌then◌else◌,
}
use crypto_back.Prelude.Int.{ℤ}
use crypto_back.Json.{Json, Fields, null, bool, str, obj, end, field, member, truthy}
use crypto_back.Errors.{
  Error, external_service_error, other_error, class_of, issubclass, type_error, validation_error,
  api_error, authentication_error, rate_limit_error, api_connection_error,
}
use crypto_back.Exec.{Result, ok, err, Exec, raise, lift, pure, modify, gets, catch, ◌>>=◌, ◌>>◌}
use crypto_back.Metrics.{Metric, cache_hits, cache_misses, ai_insight_requests, ai_insight_latency}
use crypto_back.World.{World, emit}
use crypto_back.Redis.{Redis}
use crypto_back.Breaker.Block.{Access, async_with}
use crypto_back.Cache.{cache_get, cache_get_or_set}

-- pydantic's JSON text of a time and its reading of it, `str.upper`, and the format `,.4f`.
pub record Texts : Type 0 where
  pub time_text : ℕ → String
  pub parse_time : String → Option ℕ
  pub upper : String → String
  pub price_text : ℤ → String
  pub parse-time_text : (t : ℕ) → parse_time (time_text t) ≡ some t

-- One of the dictionaries in `prices`: its timestamp, in ISO format, and its price.
pub record Price : Type 0 where
  pub timestamp : String
  pub price : ℤ

pub record InsightResponse : Type 0 where
  pub coin_id : String
  pub insight : String
  pub generated_at : ℕ
  pub cached : Bool

-- `f(**fields, name=value)`: Python refuses a keyword that is given twice.
unfoldable pub add_keyword : String → Json → Fields → Result Fields
add_keyword name value fields = elim (member name fields) [
  | none ↦ ok (field name value fields)
  | some v ↦ err (other_error type_error)
]

abbrev invalid {ℓ} : {A : Type ℓ} → Result A
invalid = err (other_error validation_error)

module _ (t : Texts) where
  -- pydantic's reading of the keywords of `InsightResponse`; `cached` may be left out.
  abbrev read_cached : String → String → ℕ → Option Json → Result InsightResponse
  read_cached c i g none =
      ok (record { coin_id = c; insight = i; generated_at = g; cached = false })
  read_cached c i g (some (bool b)) =
      ok (record { coin_id = c; insight = i; generated_at = g; cached = b })
  read_cached c i g (some j) = invalid

  abbrev read_time : String → String → Option ℕ → Option Json → Result InsightResponse
  read_time c i none o = invalid
  read_time c i (some g) o = read_cached c i g o

  abbrev read_fields :
      Option Json → Option Json → Option Json → Option Json → Result InsightResponse
  read_fields (some (str c)) (some (str i)) (some (str g)) o = read_time c i (t.parse_time g) o
  read_fields c i g o = invalid

  -- `InsightResponse(**fields)`
  unfoldable pub insight_response : Fields → Result InsightResponse
  insight_response fields =
      read_fields (member "coin_id" fields) (member "insight" fields) (member "generated_at" fields)
        (member "cached" fields)

  -- `result.model_dump(mode="json")`
  unfoldable pub model_dump : InsightResponse → Json
  model_dump r = obj (
      field "coin_id" (str r.coin_id) (
        field "insight" (str r.insight) (
          field "generated_at" (str (t.time_text r.generated_at))
            (field "cached" (bool r.cached) end))))

  -- `InsightResponse(**j)` for what the cache returned; only a mapping can be unpacked.
  abbrev pub unpack : Json → Result InsightResponse
  unfolding insight_response
  unpack (obj fields) = insight_response fields
  unpack j = err (other_error type_error)

  -- `InsightResponse(**j, cached=True)`
  abbrev read_keywords : Result Fields → Result InsightResponse
  unfolding insight_response
  read_keywords (ok fields) = insight_response fields
  read_keywords (err e) = err e

  abbrev pub unpack_cached : Json → Result InsightResponse
  unfolding add_keyword read_keywords
  unpack_cached (obj fields) = read_keywords (add_keyword "cached" (bool true) fields)
  unpack_cached j = err (other_error type_error)

  -- `prices[-30:]`
  unfoldable pub last_thirty : List Price → List Price
  last_thirty prices = drop (length prices - 30) prices

  -- `"\n".join(lines)`
  unfoldable pub join_lines : List String → String
  join_lines [] = ""
  join_lines (x ∷ []) = x
  join_lines (x ∷ y ∷ r) = String.◌++◌ x (String.◌++◌ "\n" (join_lines (y ∷ r)))

  -- `f"{timestamp}: ${price:,.4f}"`
  abbrev price_line : Price → String
  price_line p = String.◌++◌ p.timestamp (String.◌++◌ ": $" (t.price_text p.price))

  -- The content of the one message that is sent.
  unfoldable pub prompt : String → List Price → String
  unfolding last_thirty join_lines
  prompt coin_id prices = String.◌++◌ "Analyze this " (
      String.◌++◌ (t.upper coin_id) (
        String.◌++◌
          " price data and provide a 2-3 sentence insight on recent price trend, momentum, and any notable price levels. Be concise, factual, and analytical. Do not give financial advice.\n\n"
          (join_lines (map price_line (last_thirty prices)))))

-- The `except` clauses of `_generate_insight_async`, in their order.
unfoldable pub map_anthropic : Error → Error
unfolding issubclass class_of
map_anthropic e =
    if issubclass (class_of e) authentication_error
    then external_service_error "AI insight service is temporarily unavailable"
    else if issubclass (class_of e) rate_limit_error
    then external_service_error "AI insight service is busy — please try again later"
    else if issubclass (class_of e) api_connection_error
    then external_service_error "AI insight service is temporarily unavailable"
    else if issubclass (class_of e) api_error
    then external_service_error "AI insight service is temporarily unavailable"
    else e

-- `messages.create(...)` with its prompt, and the text of the answer.
abbrev pub Claude : Type 0 → Type 0
Claude W = String → Exec W String

module _ {S D : Type 0} where
  abbrev pub claude_access : Access (World S D)
  claude_access = record {
    breaker = λ w. w.claude_breaker;
    put = λ cb w. record w { claude_breaker = cb };
    monotonic = λ w. w.monotonic;
  }

module _ {S D : Type 0} (r : Redis S) (others : ℕ → World S D → World S D) (t : Texts)
    (claude : Claude (World S D)) where
  unfoldable pub generate_insight_async : String → List Price → Exec (World S D) String
  unfolding prompt map_anthropic
  generate_insight_async coin_id prices =
      catch (claude (prompt t coin_id prices)) (λ e. raise (map_anthropic e))

  -- `_generate`
  unfoldable pub generate : String → List Price → Exec (World S D) Json
  generate coin_id prices = do
    text ← async_with claude_access (generate_insight_async coin_id prices)
    modify (emit ai_insight_latency)
    now ← gets (λ w. w.now)
    pure (
        model_dump t
          (record { coin_id = coin_id; insight = text; generated_at = now; cached = false }))

  -- The part after a miss.
  unfoldable pub fresh_insight : String → List Price → Exec (World S D) InsightResponse
  unfolding unpack
  fresh_insight coin_id prices = do
    modify (emit (cache_misses "insight"))
    modify (emit (ai_insight_requests "claude_api"))
    raw ←
        cache_get_or_set r others (String.◌++◌ "insight:" coin_id) (generate coin_id prices) 3600 10
    lift (unpack t raw)

  -- The part after a hit.
  unfoldable pub cached_insight : Json → Exec (World S D) InsightResponse
  unfolding unpack_cached
  cached_insight j = do
    modify (emit (cache_hits "insight"))
    modify (emit (ai_insight_requests "cache"))
    lift (unpack_cached t j)

  abbrev on_lookup : Option Json → String → List Price → Exec (World S D) InsightResponse
  unfolding fresh_insight cached_insight
  on_lookup none coin_id prices = fresh_insight coin_id prices
  on_lookup (some j) coin_id prices =
      if truthy j then cached_insight j else fresh_insight coin_id prices

  unfoldable pub get_insight : String → List Price → Exec (World S D) InsightResponse
  unfolding on_lookup cache_get
  get_insight coin_id prices w =
      on_lookup (cache_get r (String.◌++◌ "insight:" coin_id) w.store) coin_id prices w
