-- ===== src/Tests/RefinementTests.antt =====
-- A run of watchlist requests, over the tables in memory.
use crypto_back.Prelude.{
  ℕ, ◌≡◌, refl, true, false, Option, none, some, List, [], ◌∷◌, ◌==◌, if◌then◌else◌, arith,
}
use crypto_back.Exec.{ok}
use crypto_back.Redis.Memory.{memory}
use crypto_back.Sql.Memory.{memory_table-TableLaws}
use crypto_back.Sql.Scalar.{scalar_one_or_none}
use crypto_back.Coins.{Cryptocurrency, get_by_id}
use crypto_back.Watchlist.{item_clash}
use crypto_back.Watchlist.Spec.{Call, change}
use crypto_back.Watchlist.Rows.{view}
use crypto_back.Watchlist.Refinement.{serve_all, watchlist_refines}
use crypto_back.Tests.Samples.{world}
use crypto_back.Tests.CoinTests.{bitcoin}
use crypto_back.Tests.WatchlistTests.{coin_table, coin_queries, items, item_queries, schema}

abbrev coin_of : ℕ → Option Cryptocurrency
coin_of c = if 1 == c then some bitcoin else none

coin_of_lem : (c : ℕ) → get_by_id coin_table coin_queries c [] ≡ ok (coin_of c)
unfolding get_by_id scalar_one_or_none
coin_of_lem c = ground arith

-- Adding, adding again, removing twice, and a coin that is not known.
abbrev calls : List Call
calls =
    Call.post 10 3 1
    ∷ Call.post 11 3 1
    ∷ Call.delete 3 1
    ∷ Call.delete 3 1
    ∷ Call.post 12 3 9
    ∷ Call.post 13 4 1
    ∷ []

watchlist_refines_example :
    let (statuses, after) =
      serve_all memory coin_table coin_queries items item_queries
        (memory_table-TableLaws item_clash)
        schema
        coin_of
        calls
        (world [] []) in
    (statuses ≡ 201 ∷ 409 ∷ 204 ∷ 404 ∷ 404 ∷ 201 ∷ [])
    × (view after.db ≡ change true 4 1 (change false 3 1 (change true 3 1 (view []))))
unfolding get_by_id
watchlist_refines_example =
    watchlist_refines memory coin_table coin_queries items item_queries
      (memory_table-TableLaws item_clash) schema coin_of calls (world [] [])
      (record { on_insert = λ x d d' c e. refl; on_delete = λ p d c. refl })
      (record { apart = tt; coin = coin_of_lem }) (ground arith)
