-- ===== src/Tests/WorkerTests.antt =====
-- The refresh worker and the price history over tables in memory.
use mathlib.Core.List.{Perm}
use crypto_back.Prelude.{
  ℕ, ◌≡◌, refl, Bool, true, false, some, List, [], ◌∷◌, ◌++◌, keep_if, is_some, arith,
}
use crypto_back.Prelude.Int.{pos}
use crypto_back.Json.{str}
use crypto_back.Errors.{other_error, http_error}
use crypto_back.Exec.{Result, ok, err, error_of}
use crypto_back.World.{World}
use crypto_back.Breaker.{aenter}
use crypto_back.Breaker.Block.{async_with, leave_block}
use crypto_back.Redis.Memory.{Memory, memory, memory-RedisLaws}
use crypto_back.Sql.{Table, Queries, IsSorted}
use crypto_back.Sql.Memory.{
  memory_table, memory_table-TableLaws, memory_queries, memory_queries-QueriesLaws,
}
use crypto_back.Coins.{Cryptocurrency}
use crypto_back.PriceHistory.{
  PriceHistory, DeadLetter, recorded_before, append_price_snapshot, get_history, purge_old_history,
}
use crypto_back.PriceHistory.Window.{get_history-append_price_snapshot}
use crypto_back.Provider.{Client, fetch_markets, get_sized, get_json}
use crypto_back.Worker.{lock_key, report, run_refresh, refresh_pages}
use crypto_back.Worker.Runs.{get-run_refresh}
use crypto_back.Worker.Freshness.{tick_data_age, failed_run_looks_fresh}
use crypto_back.Worker.DeadLetters.{LettersFor, apart, refresh_pages-LettersFor}
use crypto_back.Metrics.{data_age_seconds}
use crypto_back.Tests.CoinTests.{texts}
use crypto_back.Tests.Samples.{quiet, world}

-- A table that stays empty, in a database of dead letters.
abbrev Letters : Type 0
Letters = List DeadLetter

abbrev empty_table : {Row : Type 0} → Table Row Letters
empty_table = record {
  rows = λ d. [];
  select = λ p d. [];
  insert = λ x d. ok d;
  update = λ p f d. d;
  delete = λ p d. d;
}

abbrev empty_queries : {Row : Type 0} → Queries Row Letters
empty_queries = record {
  count = λ d. 0;
  ordered = λ p before d. [];
  page = λ p before m n d. [];
  upsert = λ conflict set xs d. ok (0, d);
}

abbrev letters : Table DeadLetter Letters
letters = record {
  rows = λ d. d;
  select = λ p d. keep_if p d;
  insert = λ x d. ok (x ∷ d);
  update = λ p f d. d;
  delete = λ p d. d;
}

abbrev W : Type 0
W = World Memory Letters

abbrev unreachable : Client W
unreachable = record {
  get = λ request w. (err (other_error http_error), w);
  describe = λ e. "timeout";
}

fails : (page : ℕ) (w : W) → is_some (error_of (fetch_markets unreachable 250 page w).0) ≡ true
unfolding fetch_markets get_sized get_json async_with aenter leave_block
fails page w = ground arith

abbrev refreshed : World Memory Letters → Result (Unit {0}) × World Memory Letters
refreshed =
    run_refresh memory empty_table empty_queries empty_table empty_queries letters texts unreachable
      quiet (λ n. n)

get-run_refresh_example :
    memory.get lock_key (refreshed (world ((lock_key, str "1") ∷ []) [])).1.store ≡ some (str "1")
get-run_refresh_example =
    get-run_refresh memory memory-RedisLaws empty_table empty_queries empty_table empty_queries
      letters texts unreachable quiet (λ n. n) (world ((lock_key, str "1") ∷ []) [])

failed_run_looks_fresh_example :
    let (result, end) = refreshed (world [] []) in
    (result ≡ ok tt)
    × ((earlier : W) × (end.metrics
          ≡ (report memory
              (empty_table {Row = Cryptocurrency})
              empty_queries
              (empty_table {Row = PriceHistory})
              empty_queries
              letters
              texts
              unreachable
              5000000
              0
              earlier).metrics))
    × ((tick_data_age (record end { now = 95000000 })).metrics
        ≡ end.metrics ++ data_age_seconds (pos 90000000) ∷ [])
failed_run_looks_fresh_example =
    failed_run_looks_fresh memory memory-RedisLaws empty_table empty_queries empty_table
      empty_queries letters texts unreachable quiet (λ n. n) (world [] []) refl fails
      (λ row d. (row ∷ d, refl)) (omega arith) 95000000 (omega arith)

abbrev letter_table : Table DeadLetter Letters
letter_table = memory_table apart

keeps : (page : ℕ) (w : W) → (fetch_markets unreachable 250 page w).1.db ≡ w.db
unfolding fetch_markets get_sized get_json async_with aenter leave_block
keeps page w = ground arith

abbrev no_coins : List Cryptocurrency
no_coins = []

kept :
    (page : ℕ) (w : W)
    → ((fetch_markets unreachable 250 page w).1.db ≡ w.db) × (no_coins ≡ no_coins)
kept page w = (keeps page w, refl)

refresh_pages-LettersFor_example :
    let (result, end) =
      refresh_pages memory empty_table empty_queries empty_table empty_queries letter_table texts
        unreachable quiet
        (λ n. n)
        5000000
        1
        2
        (world [] []) in
    (result ≡ ok 0)
    × (no_coins ≡ no_coins)
    × ((ls : Letters) × (end.db ≡ ls)
        × LettersFor memory empty_table empty_queries empty_table empty_queries letter_table texts
            unreachable quiet
            (λ n. n)
            5000000
            1
            2
            (world [] [])
            ls)
refresh_pages-LettersFor_example =
    refresh_pages-LettersFor memory memory-RedisLaws empty_table empty_queries empty_table
      empty_queries letter_table (memory_table-TableLaws apart) texts unreachable quiet (λ n. n)
      fails kept (λ n w. (refl, refl)) (λ x d d' e. refl) 5000000 1 2 (world [] [])

-- Two rows of one coin, of which only the later one is less than 90 days old.
abbrev pub history : List PriceHistory
history =
    record { external_id = "bitcoin"; price = pos 1; recorded_at = 0 }
    ∷ record { external_id = "bitcoin"; price = pos 2; recorded_at = 8000000000000 }
    ∷ []

abbrev same_row : PriceHistory → PriceHistory → Bool
same_row x y = false

abbrev pub price_table : Table PriceHistory (List PriceHistory)
price_table = memory_table same_row

abbrev pub price_queries : Queries PriceHistory (List PriceHistory)
price_queries = memory_queries same_row

abbrev pub no_letters : Table DeadLetter (List PriceHistory)
no_letters = record {
  rows = λ d. [];
  select = λ p d. [];
  insert = λ x d. ok d;
  update = λ p f d. d;
  delete = λ p d. d;
}

-- A third row, of the last day.
get_history-append_price_snapshot_example :
    let now : ℕ = 8100000000000 in
    let row : PriceHistory = record {
      external_id = "bitcoin";
      price = pos 3;
      recorded_at = 8050000000000;
    } in
    let with_row =
      (append_price_snapshot price_table price_queries no_letters "bitcoin"
        (pos 3)
        8050000000000
        history).1 in
    let kept = (purge_old_history price_table price_queries no_letters 90 now with_row).1 in
    let before = get_history price_table price_queries no_letters "bitcoin" 30 now history in
    let after = get_history price_table price_queries no_letters "bitcoin" 30 now kept in
    Perm after (before ++ row ∷ []) × IsSorted recorded_before after
get_history-append_price_snapshot_example =
    get_history-append_price_snapshot price_table price_queries no_letters same_row
      (memory_table-TableLaws same_row) (memory_queries-QueriesLaws same_row) "bitcoin" 30 90
      8100000000000 (record { external_id = "bitcoin"; price = pos 3; recorded_at = 8050000000000 })
      history refl
