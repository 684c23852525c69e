-- ===== src/Provider/NotFound.antt =====
-- A coin that the upstream does not know (app/providers/coingecko.py, app/core/circuit_breaker.py):
-- the breaker ignores `NotFoundError`, but what leaves its block is `httpx.HTTPStatusError`.
use Prim.Native.String
use crypto_back.Prelude.{ℕ, zero, suc, ◌+◌, ◌<◌, ◌≡◌, ap, ◌∙◌, String, [], ◌∷◌, arith}
use crypto_back.Json.{Json}
use crypto_back.Errors.{Error, not_found, not_found_error, circuit_open_error, status_error}
use crypto_back.Exec.{Result, err}
use crypto_back.World.{World, emit}
use crypto_back.Metrics.{coingecko_requests}
use crypto_back.Breaker.{opened, closed, record_failure, coingecko_breaker}
use crypto_back.Provider.{Client, market_chart, fetch_markets, fetch_history}
use crypto_back.Provider.Outage.{open_spares_upstream}

module _ {S D : Type 0} (client : Client (World S D)) (coin_id : String) (days : ℕ) where
  -- The upstream answers 404, and no other task runs meanwhile.
  abbrev pub Unknown : Type 0
  Unknown = (w : World S D) → client.get (market_chart coin_id days) w ≡ (err (status_error 404), w)

  abbrev pub not_found_detail : Error
  not_found_detail = not_found_error (String.◌++◌ "Coin '" (String.◌++◌ coin_id "' not found"))

  -- A closed breaker that ignores `NotFoundError` alone, with `k` failures counted.
  record Counted (k : ℕ) (w : World S D) : Type 0 where
    is_closed : w.coingecko_breaker.state ≡ closed
    count : w.coingecko_breaker.failure_count ≡ k
    threshold : w.coingecko_breaker.failure_threshold ≡ 5
    timeout : w.coingecko_breaker.recovery_timeout ≡ 30
    ignores : w.coingecko_breaker.ignored_exceptions ≡ not_found ∷ []
    service : w.coingecko_breaker.service ≡ "coingecko"

  -- The caller of a closed breaker gets `NotFoundError`, and the 404 is counted as a failure.
  not_found_counts :
      (w : World S D)
      → Unknown
      → w.coingecko_breaker.state ≡ closed
      → w.coingecko_breaker.ignored_exceptions ≡ not_found ∷ []
      → ((fetch_history client coin_id days w).0 ≡ err not_found_detail)
        × ((fetch_history client coin_id days w).1.coingecko_breaker
            ≡ record_failure w.monotonic w.coingecko_breaker)
        × ((fetch_history client coin_id days w).1.monotonic ≡ w.monotonic)
  unfolding fetch_history record_failure
  not_found_counts w unknown c ign = ground (arith, unknown (emit (coingecko_requests "history") w))

  Counted-step :
      (k : ℕ) (w : World S D)
      → Unknown
      → Counted k w
      → k < 4
      → Counted (suc k) (fetch_history client coin_id days w).1
  unfolding record_failure
  Counted-step k w unknown h lt = ground (arith, not_found_counts w unknown)

  fifth :
      (w : World S D)
      → Unknown
      → Counted 4 w
      → let w' = (fetch_history client coin_id days w).1 in
        (w'.coingecko_breaker.state ≡ opened)
        × (w'.coingecko_breaker.service ≡ "coingecko")
        × (w'.monotonic
            < w'.coingecko_breaker.last_failure_time + w'.coingecko_breaker.recovery_timeout)
  unfolding record_failure
  fifth w unknown h = ground (arith, not_found_counts w unknown)

  -- `n` requests for the history of the coin, one after the other.
  unfoldable pub ask : ℕ → World S D → World S D
  ask zero w = w
  ask (suc n) w = ask n (fetch_history client coin_id days w).1

  ask_five :
      (w : World S D)
      → Unknown
      → Counted 0 w
      → let w' = ask 5 w in
        (w'.coingecko_breaker.state ≡ opened)
        × (w'.coingecko_breaker.service ≡ "coingecko")
        × (w'.monotonic
            < w'.coingecko_breaker.last_failure_time + w'.coingecko_breaker.recovery_timeout)
  unfolding ask
  ask_five w unknown h =
      let next = λ (v : World S D). (fetch_history client coin_id days v).1 in
      let one = Counted-step 0 w unknown h (omega arith) in
      let two = Counted-step 1 (next w) unknown one (omega arith) in
      let three = Counted-step 2 (next (next w)) unknown two (omega arith) in
      let four = Counted-step 3 (next (next (next w))) unknown three (omega arith) in
      fifth (next (next (next (next w)))) unknown four

  new-Counted : (w : World S D) → w.coingecko_breaker ≡ coingecko_breaker → Counted 0 w
  unfolding coingecko_breaker
  new-Counted w e = ground arith

  -- Five requests for the history of a coin that the upstream does not know open a new breaker, and
  -- the next request for the markets is refused with `CircuitOpenError` though that upstream never
  -- failed.
  pub not_found_trips :
      (w : World S D) (other : Client (World S D)) (per_page page : ℕ)
      → Unknown
      → w.coingecko_breaker ≡ coingecko_breaker
      → ((ask 5 w).coingecko_breaker.state ≡ opened)
        × ((fetch_markets other per_page page (ask 5 w)).0 ≡ err (circuit_open_error "coingecko"))
  not_found_trips w other per_page page unknown e =
      let (o, s, early) = ask_five w unknown (new-Counted w e) in
      (
        o,
        ap (λ (r : Result Json × World S D). r.0)
              (open_spares_upstream other per_page page coin_id days (ask 5 w) o early).0
            ∙ rw s,
      )
