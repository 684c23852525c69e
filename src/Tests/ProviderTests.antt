-- ===== src/Tests/ProviderTests.antt =====
-- The provider of app/providers/coingecko.py.
use crypto_back.Prelude.{◌≡◌, refl, false, [], arith}
use crypto_back.Errors.{
  Error, status_error, circuit_open_error, external_service_error, other_error, http_error,
  class_of, issubclass,
}
use crypto_back.Exec.{err}
use crypto_back.World.{World, emit}
use crypto_back.Breaker.{coingecko_breaker, opened}
use crypto_back.Metrics.{coingecko_requests, coingecko_latency}
use crypto_back.Redis.Memory.{Memory}
use crypto_back.Provider.{Client, fetch_markets, fetch_history}
use crypto_back.Provider.Outage.{fetch_markets-class, open_spares_upstream}
use crypto_back.Provider.NotFound.{ask, not_found_trips}
use crypto_back.Tests.Samples.{world, gecko}

abbrev W : Type 0
W = World Memory (Unit {0})

-- Every request is answered by 404.
abbrev unknown : Client W
unknown = record { get = λ request w. (err (status_error 404), w); describe = λ e. "404" }

-- The network is down.
abbrev offline : Client W
offline = record { get = λ request w. (err (other_error http_error), w); describe = λ e. "offline" }

abbrev new : W
new = record (world [] tt) { coingecko_breaker = gecko }

new-breaker : new.coingecko_breaker ≡ coingecko_breaker
unfolding coingecko_breaker
new-breaker = refl

not_found_trips_example :
    ((ask unknown "nocoin" 30 5 new).coingecko_breaker.state ≡ opened)
    × ((fetch_markets offline 100 1 (ask unknown "nocoin" 30 5 new)).0
        ≡ err (circuit_open_error "coingecko"))
not_found_trips_example =
    not_found_trips unknown "nocoin" 30 new offline 100 1 (λ w. refl) new-breaker

abbrev network_down : Error
network_down = external_service_error "CoinGecko network error: offline"

offline-markets : (fetch_markets offline 100 1 new).0 ≡ err network_down
unfolding fetch_markets
offline-markets = refl

fetch_markets-class_test : issubclass (class_of network_down) http_error ≡ false
fetch_markets-class_test = fetch_markets-class offline 100 1 new network_down offline-markets

abbrev tripped : W
tripped = record new { coingecko_breaker = record gecko { state = opened; last_failure_time = 90 } }

open_spares_upstream_example :
    (fetch_markets offline 100 1 tripped ≡ (
      err (circuit_open_error "coingecko"),
      emit (coingecko_latency "markets") (emit (coingecko_requests "markets") tripped),
    ))
    × (fetch_history offline "bitcoin" 30 tripped ≡ (
      err (circuit_open_error "coingecko"),
      emit (coingecko_latency "history") (emit (coingecko_requests "history") tripped),
    ))
open_spares_upstream_example =
    open_spares_upstream offline 100 1 "bitcoin" 30 tripped refl (omega arith)
