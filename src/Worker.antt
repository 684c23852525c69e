-- ===== src/Worker.antt =====
-- app/worker/refresh_job.py: one run of the scheduled refresh. A database session is the state that
-- its statements have made so far, beside the world, whose database is what has been committed.
pub mod Runs
pub mod Freshness
pub mod DeadLetters
pub mod Keys
pub mod Served
use Prim.Native.String
use crypto_back.Prelude.{
  ℕ, zero, suc, ◌+◌, ◌-◌, String, Bool, true, false, Option, none, some, List, [], ◌∷◌, map,
  if◌then◌else◌,
}
use crypto_back.Prelude.Int.{ℤ, pos}
use crypto_back.Json.{Json, null, num, str, obj, end, field, truthy}
use crypto_back.Errors.{Error}
use crypto_back.Exec.{Result, ok, err, Exec, pure, lift, gets, modify, handle, finally, ◌>>=◌, ◌>>◌}
use crypto_back.Metrics.{
  Metric, coin_refresh_total, coins_updated, refresh_last_success_timestamp,
  refresh_coins_updated_last_run, refresh_duration_seconds, refresh_failures_total,
  data_age_seconds,
}
use crypto_back.World.{World, emit}
use crypto_back.Redis.{Redis}
use crypto_back.Cache.{delete_batches}
use crypto_back.Sql.{Table, Queries}
use crypto_back.Coins.{
  Cryptocurrency, CoinValues, elements, coins_of, get_by_external_ids, upsert_many,
}
use crypto_back.PriceHistory.{
  PriceHistory, DeadLetter, append_price_snapshot, purge_old_history, write_dead_letter,
}
use crypto_back.Provider.{Client, fetch_markets}
use crypto_back.CoinService.{CoinTexts, number_json, text_json}

abbrev pub coins_per_page : ℕ
coins_per_page = 250

abbrev pub total_pages : ℕ
total_pages = 2

abbrev pub max_retries : ℕ
max_retries = 3

abbrev pub cache_ttl : ℕ
cache_ttl = 310

abbrev pub distributed_lock_ttl_ms : ℕ
distributed_lock_ttl_ms = 270000

abbrev pub lock_key : String
lock_key = "worker:refresh:lock"

pub record Session (S D : Type 0) : Type 0 where
  pub world : World S D
  pub pending : D

module _ {S D : Type 0} where
  -- `async with _session_factory() as db`: what is not committed is dropped.
  abbrev pub in_session : {A : Type 0} → Exec (Session S D) A → Exec (World S D) A
  in_session body w = let (r, s) = body (record { world = w; pending = w.db }) in (r, s.world)

  -- `await db.commit()`; nothing else is taken to be committed while the session is open.
  abbrev pub commit : Session S D → Session S D
  commit s = record s { world = record s.world { db = s.pending } }

  abbrev pub on_pending : {A : Type 0} → Exec D A → Exec (Session S D) A
  on_pending m s = let (r, d) = m s.pending in (r, record s { pending = d })

  abbrev pub on_world : {A : Type 0} → Exec (World S D) A → Exec (Session S D) A
  on_world m s = let (r, w) = m s.world in (r, record s { world = w })

module _ {S D : Type 0} (r : Redis S) (coins : Table Cryptocurrency D)
    (coin_queries : Queries Cryptocurrency D) (prices : Table PriceHistory D)
    (price_queries : Queries PriceHistory D) (dead : Table DeadLetter D) (texts : CoinTexts)
    (client : Client (World S D)) where
  -- The loop that appends a snapshot for each coin with a price.
  unfoldable pub append_snapshots : ℕ → List CoinValues → Exec D Unit
  append_snapshots now [] = pure tt
  append_snapshots now (v ∷ vs) = elim v.current_price [
    | none ↦ append_snapshots now vs
    | some price ↦
        append_price_snapshot prices price_queries dead v.external_id price now
        >> append_snapshots now vs
  ]

  -- `coin_dict`
  unfoldable pub write_through_dict : ℕ → Cryptocurrency → CoinValues → Json
  write_through_dict now db_coin v = obj (
      field "id" (str (texts.uuid_text db_coin.id)) (
        field "external_id" (str v.external_id) (
          field "name" (str v.name) (
            field "symbol" (str v.symbol) (
              field "current_price" (number_json v.current_price) (
                field "market_cap" (number_json v.market_cap) (
                  field "price_change_percentage_24h" (number_json v.price_change_percentage_24h) (
                    field "image_url" (text_json texts v.image_url) (
                      field "market_cap_rank" (number_json v.market_cap_rank) (
                        field "last_updated_at" (str (texts.iso_text now))
                          (field "data_age_seconds" (num (pos 0)) end)))))))))))

  -- The loop that fills the details in Redis.
  unfoldable pub write_through : (String → Option Cryptocurrency) → ℕ → List CoinValues → S → S
  unfolding write_through_dict
  write_through db_coins now [] s = s
  write_through db_coins now (v ∷ vs) s = elim (db_coins v.external_id) [
    | none ↦ write_through db_coins now vs s
    | some db_coin ↦
        let payload = write_through_dict now db_coin v in
        write_through db_coins now vs (
          r.setex (String.◌++◌ "coins:detail:ext:" v.external_id) cache_ttl payload (
            r.setex (String.◌++◌ "coins:detail:" (texts.uuid_text db_coin.id)) cache_ttl payload s))
  ]

  -- `_scan_delete(redis, prefix + "*")`, which has the loop of `cache_delete_pattern`
  unfoldable pub scan_delete : String → S → S
  unfolding delete_batches
  scan_delete prefix s = delete_batches r (r.scan_iter prefix s) [] s

  -- What follows the commit.
  abbrev pub fill_cache : ℕ → List CoinValues → Session S D → Session S D
  fill_cache now vs s =
      let db_coins =
        get_by_external_ids coins coin_queries (map (λ (v : CoinValues). v.external_id) vs)
          s.pending in
      let filled = write_through db_coins now vs s.world.store in
      record s {
        world = record s.world {
          store = scan_delete "coins:top_movers:" (scan_delete "coins:list:" filled);
        };
      }

  abbrev pub store_page : (ℕ → ℕ) → ℕ → Json → Exec (Session S D) ℕ
  store_page draw now raw = do
    cs ← lift (elements raw)
    vs ← coins_of now cs
    clock ← gets (λ s. s.world.now)
    count ← on_pending (upsert_many coins coin_queries draw clock vs)
    on_pending (append_snapshots now vs)
    modify commit
    modify (fill_cache now vs)
    pure count

  -- `_fetch_and_store_page`; `draw` gives the ids of new coins.
  unfoldable pub fetch_and_store_page : (ℕ → ℕ) → ℕ → ℕ → Exec (Session S D) ℕ
  fetch_and_store_page draw page now = do
    raw ← on_world (fetch_markets client coins_per_page page)
    (if truthy raw then store_page draw now raw else pure 0)

  -- After the last attempt.
  unfoldable pub give_up : ℕ → Error → Exec (World S D) Unit
  give_up page exc = do
    modify (emit (refresh_failures_total page))
    in_session (
        on_pending (write_dead_letter prices price_queries dead page (client.describe exc))
        >> modify commit)

  -- The attempts for one page, of which so many are left after this one. It gives the coins saved;
  -- `sleep n` is what other tasks do while this one sleeps with `n` attempts left.
  unfoldable pub attempt_page :
      (ℕ → World S D → World S D) → (ℕ → ℕ) → ℕ → ℕ → ℕ → Exec (World S D) ℕ
  attempt_page sleep draw now page zero w =
      let (result, w') = in_session (fetch_and_store_page draw page now) w in
      handle result (λ exc. give_up page exc >> pure 0) w'
  attempt_page sleep draw now page (suc left) w =
      let (result, w') = in_session (fetch_and_store_page draw page now) w in
      handle result (λ exc w''. attempt_page sleep draw now page left (sleep left w'')) w'

  -- The loop over the pages, from `page` on.
  unfoldable pub refresh_pages :
      (ℕ → World S D → World S D) → (ℕ → ℕ) → ℕ → ℕ → ℕ → Exec (World S D) ℕ
  refresh_pages sleep draw now page zero = pure 0
  refresh_pages sleep draw now page (suc pages) = do
    count ← attempt_page sleep draw now page (max_retries - 1)
    total ← refresh_pages sleep draw now (page + 1) pages
    pure (count + total)

  -- The gauges and counters at the end of a run.
  abbrev pub report : ℕ → ℕ → World S D → World S D
  report now total w = emit (data_age_seconds (pos 0)) (
      emit (coins_updated total) (
        emit refresh_duration_seconds (
          emit (refresh_coins_updated_last_run total)
            (emit (refresh_last_success_timestamp now) w))))

  unfoldable pub run_locked : (ℕ → World S D → World S D) → (ℕ → ℕ) → Exec (World S D) Unit
  run_locked sleep draw w =
      (do
        modify (emit coin_refresh_total)
        total ← refresh_pages sleep draw w.now 1 total_pages
        modify (report w.now total)
        clock ← gets (λ w. w.now)
        purged ← in_session (
            (do
              n ← on_pending (purge_old_history prices price_queries dead 90 clock)
              modify commit
              pure n))
        pure tt)
        w

  -- `_run_refresh`
  unfoldable pub run_refresh : (ℕ → World S D → World S D) → (ℕ → ℕ) → Exec (World S D) Unit
  run_refresh sleep draw w =
      let (acquired, s) = r.set_nx lock_key (str "1") distributed_lock_ttl_ms w.store in
      let w' = record w { store = s } in
      if acquired
      then finally (run_locked sleep draw)
          (λ w''. record w'' { store = r.delete (lock_key ∷ []) w''.store }) w'
      else (ok tt, w')
