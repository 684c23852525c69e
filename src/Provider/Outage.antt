-- ===== src/Provider/Outage.antt =====
-- What a caller of the provider (app/providers/coingecko.py) sees when the upstream fails or the
-- breaker is open.
use crypto_back.Prelude.{ℕ, ◌+◌, ◌<◌, ◌≡◌, String, false, arith}
use crypto_back.Errors.{Error, circuit_open_error, class_of, issubclass, http_error}
use crypto_back.Exec.{Result, ok, err, Exec, catch, handle}
use crypto_back.Metrics.{coingecko_requests, coingecko_latency}
use crypto_back.World.{World, emit}
use crypto_back.Breaker.{opened}
use crypto_back.Provider.{
  Client, markets, market_chart, get_json, get_sized, markets_failed, history_failed, fetch_markets,
  fetch_history,
}

-- What a `try` raises, its handler raised.
catch-eq-err :
    {W A : Type 0} (m : Exec W A) (h : Error → Exec W A) (w : W) (e : Error)
    → (catch m h w).0 ≡ err e
    → (x : Error) × (w' : W) × ((h x w').0 ≡ err e)
catch-eq-err {W} {A} m h w e = go (m w)
  where
    go :
        (t : Result A × W)
        → (handle t.0 h t.1).0 ≡ err e
        → (x : Error) × (w' : W) × ((h x w').0 ≡ err e)
    go (ok a, w') p = cc
    go (err x, w') p = (x, w', p)

module _ {S D : Type 0} (client : Client (World S D)) where
  markets_failed-class :
      (x e : Error) (w : World S D)
      → (markets_failed client x w).0 ≡ err e
      → issubclass (class_of e) http_error ≡ false
  unfolding markets_failed
  markets_failed-class x e w h = ground arith

  history_failed-class :
      (coin_id : String) (x e : Error) (w : World S D)
      → (history_failed client coin_id x w).0 ≡ err e
      → issubclass (class_of e) http_error ≡ false
  unfolding history_failed
  history_failed-class coin_id x e w h = ground arith

  -- No httpx exception leaves `fetch_markets`: what it raises is of another class.
  pub fetch_markets-class :
      (per_page page : ℕ) (w : World S D) (e : Error)
      → (fetch_markets client per_page page w).0 ≡ err e
      → issubclass (class_of e) http_error ≡ false
  unfolding fetch_markets
  fetch_markets-class per_page page w e p =
      let (x, w', q) =
        catch-eq-err (get_sized client (markets per_page page)) (markets_failed client)
          (emit (coingecko_requests "markets") w) e p in
      markets_failed-class x e w' q

  pub fetch_history-class :
      (coin_id : String) (days : ℕ) (w : World S D) (e : Error)
      → (fetch_history client coin_id days w).0 ≡ err e
      → issubclass (class_of e) http_error ≡ false
  unfolding fetch_history
  fetch_history-class coin_id days w e p =
      let (x, w', q) =
        catch-eq-err (get_json client (market_chart coin_id days)) (history_failed client coin_id)
          (emit (coingecko_requests "history") w) e p in
      history_failed-class coin_id x e w' q

  -- While the breaker is open and its recovery timeout has not passed, both methods raise
  -- `CircuitOpenError`, whatever the upstream would answer, and change nothing but their two
  -- metrics: the upstream is not called.
  pub open_spares_upstream :
      (per_page page : ℕ) (coin_id : String) (days : ℕ) (w : World S D)
      → w.coingecko_breaker.state ≡ opened
      → w.monotonic < w.coingecko_breaker.last_failure_time + w.coingecko_breaker.recovery_timeout
      → let refused = err (circuit_open_error w.coingecko_breaker.service) in
        (fetch_markets client per_page page w
          ≡ (refused, emit (coingecko_latency "markets") (emit (coingecko_requests "markets") w)))
        × (fetch_history client coin_id days w
            ≡ (refused, emit (coingecko_latency "history") (emit (coingecko_requests "history") w)))
  unfolding fetch_markets fetch_history
  open_spares_upstream per_page page coin_id days w o early = (ground arith, ground arith)
