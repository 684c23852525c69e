-- ===== src/Tests/WatchlistTests.antt =====
-- A watchlist over the tables in memory, with one coin that no request changes.
use crypto_back.Prelude.{ℕ, ◌≡◌, refl, String, Option, none, some, List, [], ◌∷◌, keep_if}
use crypto_back.Prelude.Int.{ℤ, pos}
use crypto_back.Json.{Json, null, str, num, obj, end, field}
use crypto_back.Errors.{
  conflict_error, not_found_error, other_error, validation_error, runtime_error,
}
use crypto_back.Exec.{Result, ok, err}
use crypto_back.Metrics.{watchlist_operations}
use crypto_back.World.{World, emit}
use crypto_back.Redis.Memory.{Memory, memory, memory-RedisLaws}
use crypto_back.Sql.{Table, Queries}
use crypto_back.Sql.Memory.{memory_table, memory_table-TableLaws, memory_queries}
use crypto_back.Sql.Scalar.{scalar_one_or_none}
use crypto_back.Coins.{Cryptocurrency, get_by_id}
use crypto_back.Cache.{cache_get}
use crypto_back.Idempotency.{check_idempotency}
use crypto_back.Watchlist.{
  WatchlistItem, WatchlistItemResponse, Schema, coin_response, item_clash, add, get_item, add_fresh,
  add_to_watchlist, remove_from_watchlist,
}
use crypto_back.Watchlist.Replay.{add_to_watchlist-replay}
use crypto_back.Watchlist.Cycle.{watchlist_cycle}
use crypto_back.Database.{get_db}
use crypto_back.Database.Replay.{refused_commit_replays}
use crypto_back.Tests.Samples.{world}
use crypto_back.Tests.CoinTests.{bitcoin}

abbrev pub Items : Type 0
Items = List WatchlistItem

abbrev pub coin_table : Table Cryptocurrency Items
coin_table = record {
  rows = λ d. bitcoin ∷ [];
  select = λ p d. keep_if p (bitcoin ∷ []);
  insert = λ x d. ok d;
  update = λ p f d. d;
  delete = λ p d. d;
}

abbrev pub coin_queries : Queries Cryptocurrency Items
coin_queries = record {
  count = λ d. 1;
  ordered = λ p before d. keep_if p (bitcoin ∷ []);
  page = λ p before m n d. keep_if p (bitcoin ∷ []);
  upsert = λ conflict set xs d. ok (0, d);
}

abbrev pub items : Table WatchlistItem Items
items = memory_table item_clash

abbrev pub item_queries : Queries WatchlistItem Items
item_queries = memory_queries item_clash

-- A schema that writes a response as a row of its values.
abbrev enc : Option ℤ → Json
enc none = null
enc (some z) = num z

abbrev dec : Json → Option ℤ
dec (num z) = some z
dec j = none

dec-enc : (o : Option ℤ) → dec (enc o) ≡ o
dec-enc none = refl
dec-enc (some z) = refl

abbrev enc_nat : Option ℕ → Json
enc_nat none = null
enc_nat (some n) = num (pos n)

abbrev dec_nat : Json → Option ℕ
dec_nat (num (pos n)) = some n
dec_nat j = none

dec_nat-enc_nat : (o : Option ℕ) → dec_nat (enc_nat o) ≡ o
dec_nat-enc_nat none = refl
dec_nat-enc_nat (some n) = refl

abbrev enc_text : Option String → Json
enc_text none = null
enc_text (some s) = str s

abbrev dec_text : Json → Option String
dec_text (str s) = some s
dec_text j = none

dec_text-enc_text : (o : Option String) → dec_text (enc_text o) ≡ o
dec_text-enc_text none = refl
dec_text-enc_text (some s) = refl

abbrev dump : WatchlistItemResponse → Json
dump x =
    let c = x.cryptocurrency in
    obj (
      field "id" (num (pos x.id)) (
        field "added_at" (num (pos x.added_at)) (
          field "coin" (num (pos c.id)) (
            field "external_id" (str c.external_id) (
              field "name" (str c.name) (
                field "symbol" (str c.symbol) (
                  field "price" (enc c.current_price) (
                    field "cap" (enc c.market_cap) (
                      field "change" (enc c.price_change_percentage_24h) (
                        field "image" (enc_text c.image_url) (
                          field "rank" (enc c.market_cap_rank) (
                            field "updated" (enc_nat c.last_updated_at)
                              (field "age" (enc c.data_age_seconds) end)))))))))))))

abbrev load : Json → Result WatchlistItemResponse
load
      (obj (
        field _ (num (pos i)) (
          field _ (num (pos a)) (
            field _ (num (pos c)) (
              field _ (str e) (
                field _ (str n) (
                  field _ (str s) (
                    field _ p (
                      field _ m
                        (field _ h (field _ u (field _ r (field _ t (field _ g end)))))))))))))) =
    ok (record {
      id = i;
      added_at = a;
      cryptocurrency = record {
        id = c;
        external_id = e;
        name = n;
        symbol = s;
        current_price = dec p;
        market_cap = dec m;
        price_change_percentage_24h = dec h;
        image_url = dec_text u;
        market_cap_rank = dec r;
        last_updated_at = dec_nat t;
        data_age_seconds = dec g;
      };
    })
load j = err (other_error validation_error)

pub load-dump : (x : WatchlistItemResponse) → load (dump x) ≡ ok x
load-dump x =
    let c = x.cryptocurrency in
    rw (dec-enc c.current_price) (
      rw (dec-enc c.market_cap) (
        rw (dec-enc c.price_change_percentage_24h) (
          rw (dec_text-enc_text c.image_url) (
            rw (dec-enc c.market_cap_rank)
              (rw (dec_nat-enc_nat c.last_updated_at) (rw (dec-enc c.data_age_seconds) refl))))))

abbrev pub schema : Schema
schema = record { dump = dump; load = load; load-dump = load-dump; dump_is_object = λ x. refl }

abbrev post :
    ℕ
    → Option String
    → ℕ
    → ℕ
    → World Memory Items
    → Result WatchlistItemResponse × World Memory Items
post = add_to_watchlist memory coin_table coin_queries items item_queries schema

first_post :
    (post 10 (some "k") 3 1 (world [] [])).0
    ≡ ok (record { id = 10; added_at = 5000000; cryptocurrency = coin_response bitcoin })
unfolding add_to_watchlist add_fresh check_idempotency cache_get get_by_id get_item
    scalar_one_or_none add
first_post = refl

-- User 4 sends the key of user 3, for another coin.
add_to_watchlist-replay_example :
    let again = record (post 10 (some "k") 3 1 (world [] [])).1 { db = [] } in
    post 11 (some "k") 4 2 again
    ≡ (ok (record { id = 10; added_at = 5000000; cryptocurrency = coin_response bitcoin }), again)
add_to_watchlist-replay_example =
    add_to_watchlist-replay memory memory-RedisLaws coin_table coin_queries items item_queries
      schema "k" (λ e. cc) 10 3 1 (world [] [])
      (record { id = 10; added_at = 5000000; cryptocurrency = coin_response bitcoin }) first_post 11
      4 2 []

refused_commit_replays_example :
    let (result, w') =
      get_db (some (other_error runtime_error)) (post 10 (some "k") 3 1) (world [] []) in
    (result ≡ err (other_error runtime_error))
    × (w'.db ≡ [])
    × (get_db none (post 11 (some "k") 3 1) w'
        ≡ (ok (record { id = 10; added_at = 5000000; cryptocurrency = coin_response bitcoin }), w'))
refused_commit_replays_example =
    refused_commit_replays memory memory-RedisLaws coin_table coin_queries items item_queries schema
      "k" (λ e. cc) 10 3 1 (world [] [])
      (record { id = 10; added_at = 5000000; cryptocurrency = coin_response bitcoin })
      (other_error runtime_error) first_post 11 3 1

known : get_by_id coin_table coin_queries 1 [] ≡ ok (some bitcoin)
unfolding get_by_id scalar_one_or_none
known = refl

missing : get_item items item_queries 3 1 [] ≡ ok none
unfolding get_item scalar_one_or_none
missing = refl

unchanged :
    (item : WatchlistItem) (d d' : Items)
    → items.insert item d ≡ ok d'
    → get_by_id coin_table coin_queries 1 d' ≡ get_by_id coin_table coin_queries 1 d
unfolding get_by_id
unchanged item d d' e = refl

watchlist_cycle_test :
    let delete =
      remove_from_watchlist memory coin_table coin_queries items item_queries schema 3 1 in
    let (result, w') = post 10 none 3 1 (world [] []) in
    (result ≡ ok (record { id = 10; added_at = 5000000; cryptocurrency = coin_response bitcoin }))
    × (post 11 none 3 1 w' ≡ (
      err (conflict_error "Already in watchlist"),
      emit (watchlist_operations "add" "conflict") w',
    ))
    × ((delete w').0 ≡ ok tt)
    × ((delete (delete w').1).0 ≡ err (not_found_error "Item not found in watchlist"))
watchlist_cycle_test =
    watchlist_cycle memory coin_table coin_queries items item_queries
      (memory_table-TableLaws item_clash) schema 3 1 10 11 bitcoin (world [] []) unchanged known
      missing refl
