-- ===== src/Tests/RefreshTests.antt =====
-- A read in the middle of a refresh, over the store and the tables in memory.
use crypto_back.Prelude.{ℕ, ◌+◌, ◌≡◌, refl, none, some}
use crypto_back.Json.{Json}
use crypto_back.Exec.{Result, ok}
use crypto_back.Metrics.{cache_hits}
use crypto_back.World.{emit}
use crypto_back.Redis.Memory.{memory, memory-RedisLaws}
use crypto_back.Sql.Memory.{memory_table, memory_queries}
use crypto_back.Sql.Scalar.{scalar_one_or_none}
use crypto_back.Breaker.{aenter, aexit}
use crypto_back.Breaker.Block.{async_with, leave_block}
use crypto_back.Coins.{coin_clash, get_by_id, upsert_many, elements, coins_of, coin_values}
use crypto_back.Provider.{fetch_markets, get_sized, get_json}
use crypto_back.CoinService.{coin_to_dict, get_coin, refresh_coins, store_listing, invalidate}
use crypto_back.Cache.{cache_delete_pattern, lock_of}
use crypto_back.RefreshEndpoint.Stale.{stale_after_refresh}
use crypto_back.Tests.Samples.{quiet, world}
use crypto_back.Tests.CoinTests.{W, coins, bitcoin, listing, texts, cached}

abbrev refresh : Result ℕ × W
refresh =
    refresh_coins memory (quiet {W = W}) (memory_table coin_clash) (memory_queries coin_clash) texts
      (some listing) (λ n. n + 7) (world cached coins)

-- The listing has no price for the coin, which the database has.
refresh_lem : refresh.0 ≡ ok 1
unfolding refresh_coins store_listing fetch_markets get_sized get_json async_with aenter leave_block
    aexit elements coins_of coin_values upsert_many
refresh_lem = refl

unlocked : memory.get (lock_of "coins:detail:7") refresh.1.store ≡ none
unfolding refresh_coins store_listing fetch_markets get_sized get_json async_with aenter leave_block
    aexit elements coins_of coin_values upsert_many invalidate cache_delete_pattern
unlocked = refl

found : get_by_id (memory_table coin_clash) (memory_queries coin_clash) 1 coins ≡ ok (some bitcoin)
unfolding get_by_id scalar_one_or_none
found = refl

abbrev get : W → Result Json × W
get = get_coin memory (quiet {W = W}) (memory_table coin_clash) (memory_queries coin_clash) texts 1

stale_after_refresh_example :
    let (read, between) = get (record refresh.1 { db = coins }) in
    let committed : W = record between { db = refresh.1.db } in
    (read ≡ ok (coin_to_dict texts refresh.1.now bitcoin))
    × (get committed ≡ (
      ok (coin_to_dict texts refresh.1.now bitcoin),
      emit (cache_hits "coins:detail") committed,
    ))
stale_after_refresh_example =
    stale_after_refresh memory memory-RedisLaws (quiet {W = W}) (memory_table coin_clash)
      (memory_queries coin_clash) texts listing (λ n. n + 7) 1 (world cached coins) 1 bitcoin
      refresh_lem unlocked found
