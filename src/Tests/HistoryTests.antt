-- ===== src/Tests/HistoryTests.antt =====
-- The history of a coin over two requests, with a schema that writes all the values of a response.
use crypto_back.Prelude.{◌≡◌, refl, ap, none, List, [], ◌∷◌}
use crypto_back.Prelude.Int.{pos}
use crypto_back.Json.{Json, Items, str, num, arr, obj, nil, cons, end, field}
use crypto_back.Errors.{other_error, validation_error}
use crypto_back.Exec.{Result, ok, err}
use crypto_back.Metrics.{cache_hits}
use crypto_back.World.{World, emit}
use crypto_back.Redis.Memory.{Memory, memory, memory-RedisLaws}
use crypto_back.Cache.{cache_get}
use crypto_back.PriceHistory.{PriceHistory, get_history}
use crypto_back.HistoryService.{HistoryResponse, HistorySchema, history_key, coin_history}
use crypto_back.HistoryService.Cached.{coin_history_twice}
use crypto_back.Tests.WorkerTests.{price_table, price_queries, no_letters}
use crypto_back.Tests.Tokens.{ticks}
use crypto_back.Tests.Samples.{quiet, world}

enc : List PriceHistory → Items
enc [] = nil
enc (h ∷ hs) =
    cons
      (obj (
        field "coin" (str h.external_id)
          (field "price" (num h.price) (field "at" (num (pos h.recorded_at)) end))))
      (enc hs)

dec : Items → List PriceHistory
dec (cons (obj (field _ (str e) (field _ (num p) (field _ (num (pos a)) end)))) xs) =
    record { external_id = e; price = p; recorded_at = a } ∷ dec xs
dec xs = []

dec-enc : (hs : List PriceHistory) → dec (enc hs) ≡ hs
unfolding dec enc
dec-enc [] = refl
dec-enc (h ∷ hs) = ap (λ (l : List PriceHistory). h ∷ l) (dec-enc hs)

abbrev dump : HistoryResponse → Json
dump x = obj (
    field "coin_id" (str x.coin_id)
      (field "days" (num (pos x.days)) (field "prices" (arr (enc x.prices)) end)))

abbrev load : Json → Result HistoryResponse
load (obj (field _ (str c) (field _ (num (pos d)) (field _ (arr xs) end)))) =
    ok (record { coin_id = c; days = d; prices = dec xs })
load j = err (other_error validation_error)

load-dump : (x : HistoryResponse) → load (dump x) ≡ ok x
load-dump x = rw (dec-enc x.prices) refl

abbrev schema : HistorySchema
schema = record { dump = dump; load = load; load-dump = load-dump; dump_is_object = λ x. refl }

abbrev row : PriceHistory
row = record { external_id = "bitcoin"; price = pos 2; recorded_at = 4000000 }

abbrev W : Type 0
W = World Memory (List PriceHistory)

empty-miss :
    cache_get memory
      (history_key memory
        (quiet {W = W})
        price_table
        price_queries
        no_letters
        schema
        ticks
        "bitcoin"
        7)
      []
    ≡ none
unfolding cache_get
empty-miss = refl

found : get_history price_table price_queries no_letters "bitcoin" 7 5000000 (row ∷ []) ≡ row ∷ []
unfolding get_history
found = refl

coin_history_twice_test :
    let get =
      coin_history memory
        (quiet {W = W})
        price_table
        price_queries
        no_letters
        schema
        ticks
        "bitcoin"
        7 in
    let again = record (get (world [] (row ∷ []))).1 { db = [] } in
    let response : HistoryResponse = record { coin_id = "bitcoin"; days = 7; prices = row ∷ [] } in
    ((get (world [] (row ∷ []))).0 ≡ ok response)
    × (get again ≡ (ok response, emit (cache_hits "coins:history") again))
coin_history_twice_test =
    coin_history_twice memory memory-RedisLaws (quiet {W = W}) price_table price_queries no_letters
      schema ticks "bitcoin" 7 (world [] (row ∷ [])) empty-miss refl row [] [] found
