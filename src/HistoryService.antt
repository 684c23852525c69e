-- ===== src/HistoryService.antt =====
-- `get_history` of app/services/crypto_service.py, and its endpoint of
-- app/api/v1/endpoints/cryptocurrencies.py. What pydantic does with `HistoryResponse` of
-- app/schemas/cryptocurrency.py, and the text of a number, are parameters.
pub mod Cached
use Prim.Native.String
use crypto_back.Prelude.{
  ℕ, ◌≡◌, String, true, ◌||◌, Option, none, some, List, [], ◌∷◌, ◌==◌, if◌then◌else◌,
}
use crypto_back.Json.{Json, truthy}
use crypto_back.Errors.{not_found_error, http_exception_error}
use crypto_back.Exec.{Result, ok, err, Exec, raise, lift, modify, ◌>>=◌, ◌>>◌}
use crypto_back.Metrics.{cache_hits, cache_misses}
use crypto_back.World.{World, emit}
use crypto_back.Redis.{Redis}
use crypto_back.Sql.{Table, Queries}
use crypto_back.Cache.{cache_get, cache_get_or_set}
use crypto_back.PriceHistory.{PriceHistory, DeadLetter, get_history}

-- `prices` are the rows, of which the response has the time and the price.
pub record HistoryResponse : Type 0 where
  pub coin_id : String
  pub days : ℕ
  pub prices : List PriceHistory

-- `model_dump(mode="json")` and `HistoryResponse(**raw)`
pub record HistorySchema : Type 0 where
  pub dump : HistoryResponse → Json
  pub load : Json → Result HistoryResponse
  pub load-dump : (x : HistoryResponse) → load (dump x) ≡ ok x
  pub dump_is_object : (x : HistoryResponse) → truthy (dump x) ≡ true

module _ {S D : Type 0} (r : Redis S) (others : ℕ → World S D → World S D)
    (t : Table PriceHistory D) (q : Queries PriceHistory D) (dead : Table DeadLetter D)
    (schema : HistorySchema) (nat_text : ℕ → String) where
  abbrev pub history_key : String → ℕ → String
  history_key external_id days =
      String.◌++◌ "coins:history:" (String.◌++◌ external_id (String.◌++◌ ":" (nat_text days)))

  abbrev response_for : String → ℕ → List PriceHistory → Result Json
  response_for external_id days [] = err (
      not_found_error (
        String.◌++◌ "No price history for '" (
          String.◌++◌ external_id
            "'. Data may not have been collected yet — check back after the next refresh cycle.")))
  response_for external_id days (h ∷ hs) =
      ok (schema.dump (record { coin_id = external_id; days = days; prices = h ∷ hs }))

  unfoldable pub fetch_rows : String → ℕ → Exec (World S D) Json
  fetch_rows external_id days w = (
    response_for external_id days (get_history t q dead external_id days w.now w.db),
    emit (cache_misses "coins:history") w,
  )

  -- The part after a miss.
  unfoldable pub fresh_history : String → ℕ → Exec (World S D) HistoryResponse
  fresh_history external_id days = do
    raw ←
        cache_get_or_set r others (history_key external_id days) (fetch_rows external_id days) 300
          10
    lift (schema.load raw)

  abbrev on_history : String → ℕ → Option Json → Exec (World S D) HistoryResponse
  on_history external_id days none = fresh_history external_id days
  on_history external_id days (some j) =
      if truthy j
      then modify (emit (cache_hits "coins:history")) >> lift (schema.load j)
      else fresh_history external_id days

  -- `get_history` of the service
  unfoldable pub coin_history : String → ℕ → Exec (World S D) HistoryResponse
  coin_history external_id days w =
      on_history external_id days (cache_get r (history_key external_id days) w.store) w

  -- `get_price_history`, for days that FastAPI has checked to be at least 7
  unfoldable pub get_price_history : String → ℕ → Exec (World S D) HistoryResponse
  get_price_history external_id days =
      if (days == 7) || ((days == 30) || (days == 90))
      then coin_history external_id days
      else raise (http_exception_error 422 "days must be 7, 30, or 90")
