-- ===== src/Worker/Freshness.antt =====
-- `_tick_data_age` of app/worker/refresh_job.py, and what it shows after a run that failed. An age is
-- in microseconds, as the clock is.
use crypto_back.Prelude.{
  ℕ, ◌-◌, ◌≤◌, ◌<◌, ◌≡◌, ◌∙◌, refl, ap, List, [], ◌∷◌, ◌++◌, ◌==◌, leb, none, if◌then◌else◌, arith,
}
use crypto_back.Prelude.Int.{ℤ, pos, negsuc}
use crypto_back.Exec.{ok}
use crypto_back.Metrics.{Metric, refresh_last_success_timestamp, data_age_seconds}
use crypto_back.World.{World, emit}
use crypto_back.Redis.{Redis, RedisLaws}
use crypto_back.Sql.{Table, Queries}
use crypto_back.Coins.{Cryptocurrency}
use crypto_back.PriceHistory.{PriceHistory, DeadLetter}
use crypto_back.Provider.{Client}
use crypto_back.CoinService.{CoinTexts}
use crypto_back.Worker.{lock_key, report, run_refresh}
use crypto_back.Worker.Runs.{IsFailing, IsWritable, failed_run_reports_success}

-- `refresh_last_success_timestamp._value.get()` after the updates; a gauge starts at 0.
abbrev pub last_success_from : ℕ → List Metric → ℕ
last_success_from n [] = n
last_success_from n (refresh_last_success_timestamp t ∷ ms) = last_success_from t ms
last_success_from n (m ∷ ms) = last_success_from n ms

-- `time.time() - last_ts`
abbrev age : ℕ → ℕ → ℤ
age now last = if leb last now then pos (now - last) else negsuc (last - now - 1)

unfoldable pub tick_data_age : {S D : Type 0} → World S D → World S D
tick_data_age w =
    let last = last_success_from 0 w.metrics in
    if last == 0 then w else emit (data_age_seconds (age w.now last)) w

last_success-append :
    (n : ℕ) (ms ns : List Metric)
    → last_success_from n (ms ++ ns) ≡ last_success_from (last_success_from n ms) ns
last_success-append n [] ns = refl
last_success-append n (refresh_last_success_timestamp t ∷ ms) ns = last_success-append t ms ns
last_success-append n (m ∷ ms) ns = last_success-append n ms ns

module _ {S D : Type 0} (r : Redis S) (laws : RedisLaws r) (coins : Table Cryptocurrency D)
    (coin_queries : Queries Cryptocurrency D) (prices : Table PriceHistory D)
    (price_queries : Queries PriceHistory D) (dead : Table DeadLetter D) (texts : CoinTexts)
    (client : Client (World S D)) (sleep : ℕ → World S D → World S D) (draw : ℕ → ℕ) where
  last_success-report :
      (now total : ℕ) (w : World S D)
      → last_success_from 0
          (report r coins coin_queries prices price_queries dead texts client now total w).metrics
        ≡ now
  last_success-report now total w = rw last_success-append (
      rw last_success-append
        (rw last_success-append (rw last_success-append (rw last_success-append refl))))

  -- A run that takes the lock while every request to the provider fails returns, provided that dead
  -- letters can be written, and leaves the metrics of a success: the time of the last success is the
  -- run's own time and the age of the data 0, with 0 coins. Every later tick of the gauge counts the
  -- age from that run, as if it had stored its data.
  pub failed_run_looks_fresh :
      (w : World S D)
      → r.get lock_key w.store ≡ none
      → IsFailing r laws coins coin_queries prices price_queries dead texts client sleep draw
      → IsWritable r laws coins coin_queries prices price_queries dead texts client sleep draw
      → 0 < w.now
      → (later : ℕ) → w.now ≤ later
      → let (result, end) =
          run_refresh r coins coin_queries prices price_queries dead texts client sleep draw w in
        (result ≡ ok tt)
        × ((earlier : World S D) × (end.metrics
              ≡ (report r coins coin_queries prices price_queries dead texts client w.now 0
                  earlier).metrics))
        × ((tick_data_age (record end { now = later })).metrics
            ≡ end.metrics ++ data_age_seconds (pos (later - w.now)) ∷ [])
  unfolding tick_data_age
  failed_run_looks_fresh w free failing writable started later after =
      let (returned, (earlier, reported)) =
        failed_run_reports_success r laws coins coin_queries prices price_queries dead texts client
          sleep draw w free failing writable in
      let end =
        (run_refresh r coins coin_queries prices price_queries dead texts client sleep draw w).1 in
      let e : last_success_from 0 end.metrics ≡ w.now =
        ap (last_success_from 0) reported ∙ last_success-report w.now 0 earlier in
      (returned, (earlier, reported), rw e (ground arith))
