-- ===== src/Tests/InsightTests.antt =====
-- The insight service of app/services/ai_insight_service.py.
use Prim.Native.String
use crypto_back.Prelude.{String, List, leb, ◌≡◌, ap, refl, false, none, some, []}
use crypto_back.Errors.{other_error, type_error, rate_limit_error, api_error, class_of, issubclass}
use crypto_back.Exec.{ok, err}
use crypto_back.World.{World}
use crypto_back.Redis.Memory.{Memory, memory, memory-RedisLaws}
use crypto_back.Cache.{lock_of, cache_get}
use crypto_back.Insight.{
  Texts, InsightResponse, model_dump, unpack, map_anthropic, Claude, get_insight,
}
use crypto_back.Insight.Replay.{unpack-model_dump, second_request_raises}
use crypto_back.Breaker.{aexit}
use crypto_back.Insight.Failures.{api_failure}
use crypto_back.Tests.Tokens.{ticks, count-ticks}
use crypto_back.Json.{str, get}
use crypto_back.Errors.{circuit_open_error}
use crypto_back.Errors.Handlers.{handle}
use crypto_back.Errors.Responses.{handle-detail}
use crypto_back.PriceHistory.{PriceHistory}
use crypto_back.Transports.{get_coin_insight, get_insight_rpc}
use crypto_back.Transports.Agreement.{IsSame, get_insight_rpc-get_coin_insight}
use crypto_back.Tests.WorkerTests.{history, price_table, price_queries, no_letters}
use crypto_back.Tests.Samples.{quiet, world}

abbrev W : Type 0
W = World Memory (Unit {0})

abbrev texts : Texts
texts = record {
  time_text = ticks;
  parse_time = λ s. some (String.count s);
  upper = λ s. s;
  price_text = λ p. "1.0000";
  parse-time_text = λ t. ap some (count-ticks t);
}

abbrev says : Claude W
says p w = (ok "Up.", w)

abbrev limited : Claude W
limited p w = (err (other_error rate_limit_error), w)

abbrev start : W
start = world [] tt

start-miss : cache_get memory "insight:bitcoin" start.store ≡ none
unfolding cache_get
start-miss = refl

abbrev reply : InsightResponse
reply = record { coin_id = "bitcoin"; insight = "Up."; generated_at = 5000000; cached = false }

unpack-model_dump_test : unpack texts (model_dump texts reply) ≡ ok reply
unpack-model_dump_test = unpack-model_dump texts reply

second_request_raises_example :
    let (result, w') = get_insight memory (quiet {W = W}) texts says "bitcoin" [] start in
    (result ≡ ok reply)
    × ((get_insight memory (quiet {W = W}) texts says "bitcoin" [] w').0
        ≡ err (other_error type_error))
second_request_raises_example =
    second_request_raises memory memory-RedisLaws (quiet {W = W}) texts says "bitcoin" "Up." []
      start (λ p w. refl) refl start-miss refl []

api_failure_example :
    let (result, w') = get_insight memory (quiet {W = W}) texts limited "bitcoin" [] start in
    (result ≡ err (map_anthropic (other_error rate_limit_error)))
    × (issubclass (class_of (map_anthropic (other_error rate_limit_error))) api_error ≡ false)
    × (memory.get (lock_of "insight:bitcoin") w'.store ≡ none)
    × (cache_get memory "insight:bitcoin" w'.store ≡ none)
    × (w'.claude_breaker
        ≡ aexit 100 (some (map_anthropic (other_error rate_limit_error))) start.claude_breaker)
api_failure_example =
    api_failure memory memory-RedisLaws (quiet {W = W}) texts limited "bitcoin" [] start
      (other_error rate_limit_error) (λ p w. refl) refl start-miss refl

handle-detail_test :
    (detail : String) × (get "detail" (handle (circuit_open_error "claude")).content
      ≡ some (str detail))
    × ((handle (circuit_open_error "claude")).logged_error
        ≡ leb 500 (handle (circuit_open_error "claude")).status_code)
handle-detail_test = handle-detail (circuit_open_error "claude")

-- A coin with two prices, and the insight that both transports give.
abbrev known : World Memory (List PriceHistory)
known = world [] history

abbrev answers : Claude (World Memory (List PriceHistory))
answers p w = (ok "Up.", w)

get_insight_rpc-get_coin_insight_example :
    let rest =
      get_coin_insight memory quiet price_table price_queries no_letters texts ticks answers
        "bitcoin" known in
    let rpc =
      get_insight_rpc memory quiet price_table price_queries no_letters texts ticks answers
        "bitcoin" 0 known in
    IsSame rest.0 rpc.0 × (rpc.1 ≡ rest.1)
get_insight_rpc-get_coin_insight_example =
    get_insight_rpc-get_coin_insight memory quiet price_table price_queries no_letters texts ticks
      answers "bitcoin" known refl
