-- ===== src/Provider.antt =====
-- app/providers/coingecko.py: `class CoinGeckoProvider`, and its interface of
-- app/providers/base.py. The httpx client is a parameter.
pub mod Outage
pub mod NotFound
use Prim.Native.String
use crypto_back.Prelude.{ℕ, String, Bool, true, false, Option, none, some, ◌==◌, if◌then◌else◌}
use crypto_back.Json.{Json, null, bool, num}
use crypto_back.Errors.{
  Error, not_found_error, external_service_error, status_error, other_error, class_of, issubclass,
  http_error, type_error,
}
use crypto_back.Exec.{Result, ok, err, Exec, raise, lift, modify, catch, finally, ◌>>=◌, ◌>>◌}
use crypto_back.Metrics.{Metric, coingecko_requests, coingecko_errors, coingecko_latency}
use crypto_back.World.{World, emit}
use crypto_back.Breaker.Block.{Access, async_with}

-- The query parameters that the two calls send.
pub data Request : Type 0 where
  markets : ℕ → ℕ → Request
  market_chart : String → ℕ → Request

-- The httpx client. `get` is the call and `raise_for_status`: it raises, or returns what
-- `resp.json()` will come to. While it waits other tasks may change the state.
pub record Client (W : Type 0) : Type 0 where
  pub get : Request → Exec W (Result Json)
  -- `str(e)`
  pub describe : Error → String

module _ {S D : Type 0} where
  abbrev pub coingecko_access : Access (World S D)
  coingecko_access = record {
    breaker = λ w. w.coingecko_breaker;
    put = λ cb w. record w { coingecko_breaker = cb };
    monotonic = λ w. w.monotonic;
  }

module _ {S D : Type 0} (client : Client (World S D)) where
  -- The request under the breaker, and `resp.json()` after it.
  unfoldable pub get_json : Request → Exec (World S D) Json
  unfolding async_with
  get_json request = do resp ← async_with coingecko_access (client.get request); lift resp

  -- `len(data)` stands in the log line of `fetch_markets`.
  abbrev sized : Json → Result Json
  sized null = err (other_error type_error)
  sized (bool b) = err (other_error type_error)
  sized (num z) = err (other_error type_error)
  sized j = ok j

  unfoldable pub get_sized : Request → Exec (World S D) Json
  unfolding get_json
  get_sized request = do data' ← get_json request; lift (sized data')

  -- `except httpx.HTTPError`, the second clause of both methods
  unfoldable pub network_error : String → Error → Exec (World S D) Json
  unfolding issubclass class_of
  network_error operation e =
      if issubclass (class_of e) http_error
      then modify (emit (coingecko_errors operation none))
        >> raise
            (external_service_error (String.◌++◌ "CoinGecko network error: " (client.describe e)))
      else raise e

  -- The two `except` clauses of `fetch_markets`.
  unfoldable pub markets_failed : Error → Exec (World S D) Json
  unfolding network_error
  markets_failed (status_error code) =
      modify (emit (coingecko_errors "markets" (some code)))
      >> raise (
          external_service_error
            (String.◌++◌ "CoinGecko error: " (client.describe (status_error code))))
  markets_failed e = network_error "markets" e

  unfoldable pub fetch_markets : ℕ → ℕ → Exec (World S D) Json
  unfolding get_sized markets_failed
  fetch_markets per_page page = do
    modify (emit (coingecko_requests "markets"))
    finally (catch (get_sized (markets per_page page)) markets_failed)
        (emit (coingecko_latency "markets"))

  -- The two `except` clauses of `fetch_history`.
  unfoldable pub history_failed : String → Error → Exec (World S D) Json
  unfolding network_error
  history_failed coin_id (status_error code) =
      modify (emit (coingecko_errors "history" (some code)))
      >> raise (
          if code == 404
          then not_found_error (String.◌++◌ "Coin '" (String.◌++◌ coin_id "' not found"))
          else external_service_error
              (String.◌++◌ "CoinGecko error: " (client.describe (status_error code))))
  history_failed coin_id e = network_error "history" e

  unfoldable pub fetch_history : String → ℕ → Exec (World S D) Json
  unfolding get_json history_failed
  fetch_history coin_id days = do
    modify (emit (coingecko_requests "history"))
    finally (catch (get_json (market_chart coin_id days)) (history_failed coin_id))
        (emit (coingecko_latency "history"))
