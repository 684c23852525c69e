-- ===== src/Worker/Runs.antt =====
-- What one run of app/worker/refresh_job.py leaves behind.
use crypto_back.Prelude.{
  ℕ, zero, suc, ◌+◌, ◌-◌, ◌≡◌, refl, true, false, none, [], ◌∷◌, eq_refl, is_some, arith,
}
use crypto_back.Json.{Json, str}
use crypto_back.Errors.{Error}
use crypto_back.Exec.{Result, ok, err, error_of}
use crypto_back.Metrics.{coin_refresh_total}
use crypto_back.World.{World, emit}
use crypto_back.Redis.{Redis, RedisLaws}
use crypto_back.Sql.{Table, Queries}
use crypto_back.Coins.{Cryptocurrency}
use crypto_back.PriceHistory.{
  first_chars, PriceHistory, DeadLetter, write_dead_letter, purge_old_history,
}
use crypto_back.Provider.{Client, fetch_markets}
use crypto_back.CoinService.{CoinTexts}
use crypto_back.Worker.{
  Session, coins_per_page, total_pages, max_retries, lock_key, distributed_lock_ttl_ms,
  fetch_and_store_page, give_up, attempt_page, refresh_pages, report, run_locked, run_refresh,
}

module _ {S D : Type 0} (r : Redis S) (laws : RedisLaws r) (coins : Table Cryptocurrency D)
    (coin_queries : Queries Cryptocurrency D) (prices : Table PriceHistory D)
    (price_queries : Queries PriceHistory D) (dead : Table DeadLetter D) (texts : CoinTexts)
    (client : Client (World S D)) (sleep : ℕ → World S D → World S D) (draw : ℕ → ℕ) where
  -- A run leaves its lock as it found it: a lock that another worker holds stays, and one that the
  -- run has taken is gone at its end, whether the run returns or raises.
  pub get-run_refresh :
      (w : World S D)
      → let end =
          (run_refresh r coins coin_queries prices price_queries dead texts client sleep draw
            w).1 in
        r.get lock_key end.store ≡ r.get lock_key w.store
  unfolding run_refresh
  get-run_refresh w =
      let (acquired, s) = r.set_nx lock_key (str "1") distributed_lock_ttl_ms w.store in
      let locked =
        run_locked r coins coin_queries prices price_queries dead texts client sleep draw
          (record w { store = s }) in
      ground (
        arith,
        laws.set_nx-result lock_key (str "1") distributed_lock_ttl_ms w.store,
        laws.get-set_nx lock_key lock_key (str "1") distributed_lock_ttl_ms w.store,
        laws.get-delete (lock_key ∷ []) lock_key locked.1.store,
        eq_refl lock_key,
      )

  abbrev pub IsFailing : Type 0
  IsFailing =
      (page : ℕ) (w : World S D)
      → is_some (error_of (fetch_markets client coins_per_page page w).0) ≡ true

  -- A dead letter can be written.
  abbrev pub IsWritable : Type 0
  IsWritable = (row : DeadLetter) (d : D) → (d' : D) × (dead.insert row d ≡ ok d')

  pub page_fails :
      (fetched : Result Json × World S D)
      → is_some (error_of fetched.0) ≡ true
      → (e : Error) × (fetched.0 ≡ err e)
  page_fails (ok j, w) h = absurd (ground arith)
  page_fails (err e, w) h = (e, refl)

  give_up_returns :
      (page : ℕ) (e : Error) (w : World S D)
      → IsWritable
      → (give_up r coins coin_queries prices price_queries dead texts client page e w).0 ≡ ok tt
  unfolding give_up write_dead_letter
  give_up_returns page e w writable =
      let (d', written) =
        writable
          (record {
            batch_page = page;
            error = first_chars 2000 (client.describe e);
            retries = 0;
            resolved = false;
          })
          w.db in
      rw written refl

  pub fetch_fails :
      (page now : ℕ) (s : Session S D)
      → IsFailing
      → (e : Error) × ((fetch_and_store_page r coins coin_queries prices price_queries dead texts
            client draw page now s).0
          ≡ err e)
  unfolding fetch_and_store_page
  fetch_fails page now s failing =
      let fetched = fetch_markets client coins_per_page page s.world in
      let (e, p) = page_fails fetched (failing page s.world) in (e, rw p refl)

  attempt_fails :
      (now page left : ℕ) (w : World S D)
      → IsFailing
      → IsWritable
      → (attempt_page r coins coin_queries prices price_queries dead texts client sleep draw now
          page left w).0
        ≡ ok 0
  unfolding attempt_page
  attempt_fails now page zero w failing writable =
      let s : Session S D = record { world = w; pending = w.db } in
      let (e, p) = fetch_fails page now s failing in
      let w' =
        (fetch_and_store_page r coins coin_queries prices price_queries dead texts client draw page
          now s).1.world in
      rw p (rw (give_up_returns page e w' writable) refl)
  attempt_fails now page (suc left) w failing writable =
      let s : Session S D = record { world = w; pending = w.db } in
      let (e, p) = fetch_fails page now s failing in
      let w' =
        (fetch_and_store_page r coins coin_queries prices price_queries dead texts client draw page
          now s).1.world in
      rw p (attempt_fails now page left (sleep left w') failing writable)

  pages_fail :
      (now page pages : ℕ) (w : World S D)
      → IsFailing
      → IsWritable
      → (refresh_pages r coins coin_queries prices price_queries dead texts client sleep draw now
          page pages w).0
        ≡ ok 0
  unfolding refresh_pages
  pages_fail now page zero w failing writable = refl
  pages_fail now page (suc pages) w failing writable =
      let w' =
        (attempt_page r coins coin_queries prices price_queries dead texts client sleep draw now
          page (max_retries - 1) w).1 in
      rw (attempt_fails now page (max_retries - 1) w failing writable)
        (rw (pages_fail now (page + 1) pages w' failing writable) refl)

  -- What a run reports once its pages are done.
  reports :
      (w : World S D) (total : ℕ)
      → let pages =
          refresh_pages r coins coin_queries prices price_queries dead texts client sleep draw w.now
            1 total_pages
            (emit coin_refresh_total w) in
        let (result, end) =
          run_locked r coins coin_queries prices price_queries dead texts client sleep draw w in
        pages.0 ≡ ok total
        → (result ≡ ok tt)
          × (end.metrics
              ≡ (report r coins coin_queries prices price_queries dead texts client w.now total
                  pages.1).metrics)
  unfolding run_locked purge_old_history
  reports w total done = rw done (refl, refl)

  -- A run that takes the lock while every request to the provider fails returns as if it had
  -- succeeded, provided that dead letters can be written: its last updates of the metrics set the
  -- time of the last success to the run's own time and the age of the data to 0, with 0 coins.
  pub failed_run_reports_success :
      (w : World S D)
      → r.get lock_key w.store ≡ none
      → IsFailing
      → IsWritable
      → let (result, end) =
          run_refresh r coins coin_queries prices price_queries dead texts client sleep draw w in
        (result ≡ ok tt)
        × ((earlier : World S D) × (end.metrics
              ≡ (report r coins coin_queries prices price_queries dead texts client w.now 0
                  earlier).metrics))
  unfolding run_refresh
  failed_run_reports_success w free failing writable =
      let acquired : (r.set_nx lock_key (str "1") distributed_lock_ttl_ms w.store).0 ≡ true =
        ground (arith, laws.set_nx-result lock_key (str "1") distributed_lock_ttl_ms w.store) in
      let w' : World S D = record w {
        store = (r.set_nx lock_key (str "1") distributed_lock_ttl_ms w.store).1;
      } in
      let pages =
        refresh_pages r coins coin_queries prices price_queries dead texts client sleep draw w.now 1
          total_pages (emit coin_refresh_total w') in
      let (returned, reported) =
        reports w' 0
          (pages_fail w.now 1 total_pages (emit coin_refresh_total w') failing writable) in
      rw acquired (returned, (pages.1, reported))
