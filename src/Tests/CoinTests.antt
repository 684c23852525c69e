-- ===== src/Tests/CoinTests.antt =====
-- Coins and their service, over the store and the tables in memory.
use crypto_back.Prelude.{
  Option, ℕ, ◌+◌, ◌≡◌, refl, String, true, none, some, List, [], ◌∷◌, keep_if,
}
use crypto_back.Prelude.Int.{pos, negsuc}
use crypto_back.Json.{str, num, arr, obj, nil, cons, end, field}
use crypto_back.Errors.{Error, not_found_error, other_error, dbapi_error}
use crypto_back.Exec.{Result, ok, err}
use crypto_back.Metrics.{cache_hits}
use crypto_back.World.{World, emit}
use crypto_back.Redis.Memory.{Memory, memory, memory-RedisLaws}
use crypto_back.Sql.Memory.{memory_table, memory_queries, memory_queries-QueriesLaws}
use crypto_back.Sql.Scalar.{scalar_one_or_none}
use crypto_back.Cache.{cache_get}
use crypto_back.Breaker.{aenter, aexit}
use crypto_back.Breaker.Block.{async_with, leave_block}
use crypto_back.Coins.{
  Cryptocurrency, CoinValues, coin_clash, has_change, change_below, new_row, get_by_id,
  get_top_movers, upsert_many, elements, coins_of, coin_values,
}
use crypto_back.Coins.Upsert.{find_coin, upsert_many-find_coin}
use crypto_back.Coins.Movers.{IsTop, get_top_movers-IsTop}
use crypto_back.Provider.{Client, fetch_markets, get_sized, get_json}
use crypto_back.CoinService.{
  CoinTexts, coin_to_dict, detail_key, get_coin, refresh_coins, store_listing,
}
use crypto_back.CoinService.Reads.{get_coin_twice, get_coin-not_cached}
use crypto_back.CoinService.Invalidation.{get-refresh_coins}
use crypto_back.RefreshEndpoint.{committed, run_task}
use crypto_back.Tests.Samples.{quiet, world}

abbrev values : String → CoinValues
values k = record {
  external_id = k;
  name = k;
  symbol = k;
  current_price = some (pos 100);
  market_cap = none;
  price_change_percentage_24h = some (negsuc 3);
  image_url = none;
  market_cap_rank = some (pos 1);
  last_refreshed_at = 1000000;
}

abbrev pub bitcoin : Cryptocurrency
bitcoin = new_row 1 1000000 (values "bitcoin")

abbrev pub coins : List Cryptocurrency
coins = bitcoin ∷ new_row 2 1000000 (values "tether") ∷ []

abbrev pub W : Type 0
W = World Memory (List Cryptocurrency)

upsert_many-find_coin_example :
    let (result, d') =
      upsert_many
        (memory_table coin_clash)
        (memory_queries coin_clash)
        (λ n. n + 7)
        9000000
        (values "solana" ∷ values "bitcoin" ∷ [])
        coins in
    (result ≡ ok 2) × (find_coin "solana" d' ≡ some (new_row 8 9000000 (values "solana")))
upsert_many-find_coin_example =
    upsert_many-find_coin (memory_table coin_clash) (memory_queries coin_clash)
      (memory_queries-QueriesLaws coin_clash) (λ n. n + 7) 9000000
      (values "solana" ∷ values "bitcoin" ∷ []) coins "solana" (refl, (refl, tt))

get_top_movers-IsTop_example :
    let (gainers, losers) =
      get_top_movers (memory_table coin_clash) (memory_queries coin_clash) 1 coins in
    let known = keep_if has_change coins in
    IsTop (λ x y. change_below y x) 1 gainers known × IsTop change_below 1 losers known
get_top_movers-IsTop_example =
    get_top_movers-IsTop (memory_table coin_clash) (memory_queries coin_clash)
      (memory_queries-QueriesLaws coin_clash) 1 coins

abbrev pub texts : CoinTexts
texts = record {
  uuid_text = λ n. "7";
  iso_text = λ n. "2024-01-15T10:30:00Z";
  nat_text = λ n. "1";
  column_text = λ c. "name";
  name_before = λ a b. true;
}

found : get_by_id (memory_table coin_clash) (memory_queries coin_clash) 1 coins ≡ ok (some bitcoin)
unfolding get_by_id scalar_one_or_none
found = refl

absent : get_by_id (memory_table coin_clash) (memory_queries coin_clash) 9 coins ≡ ok none
unfolding get_by_id scalar_one_or_none
absent = refl

empty-miss :
    (id : ℕ)
    → cache_get memory
        (detail_key memory
          (quiet {W = W})
          (memory_table coin_clash)
          (memory_queries coin_clash)
          texts
          id)
        []
      ≡ none
unfolding cache_get
empty-miss id = refl

get_coin_twice_test :
    let get =
      get_coin memory
        (quiet {W = W})
        (memory_table coin_clash)
        (memory_queries coin_clash)
        texts
        1 in
    let (result, w') = get (world [] coins) in
    let again = record w' { db = [] } in
    (result ≡ ok (coin_to_dict texts 5000000 bitcoin))
    × (get again
        ≡ (ok (coin_to_dict texts 5000000 bitcoin), emit (cache_hits "coins:detail") again))
get_coin_twice_test =
    get_coin_twice memory memory-RedisLaws (quiet {W = W}) (memory_table coin_clash)
      (memory_queries coin_clash) texts 1 (world [] coins) (empty-miss 1) refl bitcoin [] found

get_coin-not_cached_test :
    let (result, w') =
      get_coin memory
        (quiet {W = W})
        (memory_table coin_clash)
        (memory_queries coin_clash)
        texts
        9
        (world [] coins) in
    (result ≡ err (not_found_error "Cryptocurrency not found"))
    × (cache_get memory "coins:detail:7" w'.store ≡ none)
get_coin-not_cached_test =
    get_coin-not_cached memory memory-RedisLaws (quiet {W = W}) (memory_table coin_clash)
      (memory_queries coin_clash) texts 9 (world [] coins) (empty-miss 9) refl absent

-- A listing of one coin.
abbrev pub listing : Client W
listing = record {
  get = λ request w. (
    ok (
        ok (
          arr (
            cons
              (obj (
                field "id" (str "bitcoin")
                  (field "name" (str "Bitcoin") (field "symbol" (str "btc") end))))
              nil))),
    w,
  );
  describe = λ e. "error";
}

-- A cached page, from before the refresh, and an insight.
abbrev pub cached : Memory
cached = ("coins:list:1", num (pos 1)) ∷ ("insight:bitcoin", num (pos 2)) ∷ []

get-refresh_coins_example :
    let w' =
      (refresh_coins memory
        (quiet {W = W})
        (memory_table coin_clash)
        (memory_queries coin_clash)
        texts
        (some listing)
        (λ n. n + 7)
        (world cached coins)).1 in
    memory.get "coins:list:1" w'.store ≡ none
unfolding refresh_coins store_listing fetch_markets get_sized get_json async_with aenter leave_block
    aexit elements coins_of coin_values upsert_many
get-refresh_coins_example =
    get-refresh_coins memory memory-RedisLaws (quiet {W = W}) (memory_table coin_clash)
      (memory_queries coin_clash) texts listing (λ n. n + 7) "coins:list:1" (world cached coins)

-- The database refuses the commit.
abbrev lost : Option Error
lost = some (other_error dbapi_error)

abbrev run : Option String → W → W
run =
    run_task memory (quiet {W = W}) (memory_table coin_clash) (memory_queries coin_clash) texts
      listing lost (λ n. n + 7)

abbrev ended : Result ℕ
ended =
    committed lost
      (refresh_coins memory (quiet {W = W}) (memory_table coin_clash) (memory_queries coin_clash)
        texts (some listing) (λ n. n + 7) (world [] coins)).0
