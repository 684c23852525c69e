-- ===== src/Tests/ServedTests.antt =====
-- A page of the refresh and a read of its coin, over the store and the tables in memory.
use Prim.Native.String
use text.Mathlib.TextLemmas.{append_assoc, length-append}
use text.Mathlib.TextPositions.{slice-append_left}
use crypto_back.Prelude.{
  ℕ, zero, suc, ◌+◌, ◌≡◌, ◌≢◌, ◌∙◌, refl, sym, ap, String, none, some, List, [], ◌∷◌, arith, eq_iff,
}
use crypto_back.Prelude.Int.{pos}
use crypto_back.Json.{Json, num, str, arr, obj, nil, cons, end as no_fields, field, get}
use crypto_back.Exec.{Result, ok}
use crypto_back.Metrics.{cache_hits}
use crypto_back.World.{emit}
use crypto_back.Redis.Memory.{Memory, memory, memory-RedisLaws}
use crypto_back.Sql.{Table, Queries}
use crypto_back.Sql.Memory.{memory_table, memory_queries}
use crypto_back.Breaker.{aenter, aexit}
use crypto_back.Breaker.Block.{async_with, leave_block}
use crypto_back.Coins.{
  Cryptocurrency, CoinValues, coin_clash, upsert_many, elements, coins_of, coin_values,
  get_by_external_ids,
}
use crypto_back.PriceHistory.{PriceHistory, append_price_snapshot}
use crypto_back.Provider.{fetch_markets, get_sized, get_json}
use crypto_back.CoinService.{CoinTexts, get_coin}
use crypto_back.Worker.{Session, fetch_and_store_page, append_snapshots, write_through_dict}
use crypto_back.Worker.Served.{served, page_served}
use crypto_back.Tests.Samples.{quiet, world}
use crypto_back.Tests.CoinTests.{W, bitcoin, coins, listing}
use crypto_back.Tests.CoinTests

-- A text for each number.
abbrev ticks : ℕ → String
ticks zero = ""
ticks (suc n) = String.◌++◌ "1" (ticks n)

count-ticks : (n : ℕ) → String.count (ticks n) ≡ n
count-ticks zero = refl
count-ticks (suc n) = omega (arith, length-append "1" (ticks n), count-ticks n)

abbrev texts : CoinTexts
texts = record CoinTests.texts { uuid_text = ticks }

not_ticks : (e : String) (n : ℕ) → String.◌++◌ "ext:" e ≢ ticks n
not_ticks e zero p = absurd (omega (arith, length-append "ext:" e, ap String.count p))
not_ticks e (suc n) p =
    let q : "e" ≡ "1" =
      sym (slice-append_left "e" (String.◌++◌ "xt:" e))
      ∙ ap (λ s. String.slice s 0 1) (sym (append_assoc "e" "xt:" e) ∙ p)
      ∙ slice-append_left "1" (ticks n) in
    ground (arith, q, eq_iff "e" "1")

abbrev D : Type 0
D = List Cryptocurrency

abbrev no_rows : {Row : Type 0} → Table Row D
no_rows = record {
  rows = λ d. [];
  select = λ p d. [];
  insert = λ x d. ok d;
  update = λ p f d. d;
  delete = λ p d. d;
}

abbrev no_queries : Queries PriceHistory D
no_queries = record {
  count = λ d. 0;
  ordered = λ p before d. [];
  page = λ p before m n d. [];
  upsert = λ conflict set xs d. ok (0, d);
}

abbrev start : Session Memory D
start = record { world = world [] coins; pending = coins }

abbrev listed : CoinValues
listed = record {
  external_id = "bitcoin";
  name = "Bitcoin";
  symbol = "btc";
  current_price = none;
  market_cap = none;
  price_change_percentage_24h = none;
  image_url = none;
  market_cap_rank = none;
  last_refreshed_at = 5000000;
}

abbrev coin_object : Json
coin_object = obj (
    field "id" (str "bitcoin")
      (field "name" (str "Bitcoin") (field "symbol" (str "btc") no_fields)))

abbrev raw : Json
raw = arr (cons coin_object nil)

abbrev fetched : Result Json × W
fetched = fetch_markets listing 250 1 start.world

fetched_lem : fetched ≡ (ok raw, fetched.1)
unfolding fetch_markets get_sized get_json async_with aenter leave_block aexit
fetched_lem = refl

raw-elements : elements raw ≡ ok (coin_object ∷ [])
unfolding elements
raw-elements = refl

read :
    coins_of 5000000 (coin_object ∷ []) (record start { world = fetched.1 })
    ≡ (ok (listed ∷ []), record start { world = fetched.1 })
unfolding coins_of coin_values
read = refl

abbrev page : Session Memory D → Result ℕ × Session Memory D
page =
    fetch_and_store_page memory (memory_table coin_clash) (memory_queries coin_clash) no_rows
      no_queries no_rows texts listing (λ n. n + 7) 1 5000000

abbrev end : Session Memory D
end = (page start).1

page_lem : (page start).0 ≡ ok 1
unfolding fetch_and_store_page fetch_markets get_sized get_json async_with aenter leave_block aexit
    elements coins_of coin_values upsert_many append_snapshots append_price_snapshot
page_lem = refl

abbrev served_bitcoin : Json
served_bitcoin =
    write_through_dict memory (memory_table coin_clash) (memory_queries coin_clash) no_rows
      no_queries no_rows texts listing 5000000
      (record bitcoin {
        name = "Bitcoin";
        symbol = "btc";
        current_price = none;
        price_change_percentage_24h = none;
        market_cap_rank = none;
        last_updated_at = some 5000000;
        last_refreshed_at = some 5000000;
      })
      listed

in_page :
    served memory memory-RedisLaws
      (memory_table coin_clash)
      (memory_queries coin_clash)
      no_rows
      no_queries
      no_rows
      texts
      listing
      (get_by_external_ids
        (memory_table coin_clash)
        (memory_queries coin_clash)
        ("bitcoin" ∷ [])
        end.world.db)
      5000000
      1
      (listed ∷ [])
    ≡ some served_bitcoin
unfolding fetch_and_store_page fetch_markets get_sized get_json async_with aenter leave_block aexit
    elements coins_of coin_values upsert_many append_snapshots append_price_snapshot
    get_by_external_ids
in_page = refl

page_served_example :
    let afterwards : W = record end.world { db = []; now = 300000000 } in
    (get_coin memory
        (quiet {W = W})
        (memory_table coin_clash)
        (memory_queries coin_clash)
        texts
        1
        afterwards
      ≡ (ok served_bitcoin, emit (cache_hits "coins:detail") afterwards))
    × (get "data_age_seconds" served_bitcoin ≡ some (num (pos 0)))
page_served_example =
    page_served memory memory-RedisLaws (memory_table coin_clash) (memory_queries coin_clash)
      no_rows no_queries no_rows texts listing
      (record {
        one_text = λ m n e. omega (arith, count-ticks m, count-ticks n, ap String.count e);
        no_alias = not_ticks;
      })
      (quiet {W = W}) (λ n. n + 7) 1 5000000 1 1 raw served_bitcoin (coin_object ∷ []) (listed ∷ [])
      start fetched.1 fetched_lem refl raw-elements read page_lem in_page [] 300000000
