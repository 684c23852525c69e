-- ===== src/RefreshEndpoint/Stale.antt =====
-- A read between the invalidation and the commit of a refresh (app/services/crypto_service.py,
-- app/api/v1/endpoints/cryptocurrencies.py).
use text.Mathlib.TextPositions.{starts_with-append}
use crypto_back.Prelude.{ℕ, ◌≡◌, none, some, arith}
use crypto_back.Exec.{ok}
use crypto_back.Metrics.{cache_hits}
use crypto_back.World.{World, emit}
use crypto_back.Redis.{Redis, RedisLaws}
use crypto_back.Sql.{Table, Queries}
use crypto_back.Cache.{lock_of, cache_get}
use crypto_back.Coins.{Cryptocurrency, get_by_id}
use crypto_back.Provider.{Client}
use crypto_back.CoinService.{CoinTexts, coin_to_dict, detail_key, get_coin, refresh_coins}
use crypto_back.CoinService.Invalidation.{get-refresh_coins}
use crypto_back.CoinService.Reads.{get_coin_twice}

module _ {S D : Type 0} (r : Redis S) (laws : RedisLaws r) (others : ℕ → World S D → World S D)
    (t : Table Cryptocurrency D) (q : Queries Cryptocurrency D) (texts : CoinTexts)
    (client : Client (World S D)) (draw : ℕ → ℕ) (id : ℕ) (w : World S D) where
  -- The detail of no coin is cached when a refresh has returned.
  detail_missing :
      (n : ℕ)
      → let (result, w') = refresh_coins r others t q texts (some client) draw w in
        result ≡ ok n → cache_get r (detail_key r others t q texts id) w'.store ≡ none
  unfolding cache_get
  detail_missing n done =
      let key = detail_key r others t q texts id in
      ground (
        arith,
        done,
        get-refresh_coins r laws others t q texts client draw key w,
        starts_with-append "coins:detail:" (texts.uuid_text id),
      )

  -- A refresh removes the cached details before its changes are committed. If a coin is read in
  -- between, while no other task holds the lock of its key, the row from before the refresh is cached
  -- again; and it is still returned after the commit, whatever the committed row, for as long as the
  -- key stays.
  pub stale_after_refresh :
      (n : ℕ) (c : Cryptocurrency)
      → let (result, refreshed) = refresh_coins r others t q texts (some client) draw w in
        result ≡ ok n
        → r.get (lock_of (detail_key r others t q texts id)) refreshed.store ≡ none
        → get_by_id t q id w.db ≡ ok (some c)
        → let (read, between) = get_coin r others t q texts id (record refreshed { db = w.db }) in
          let committed = record between { db = refreshed.db } in
          (read ≡ ok (coin_to_dict texts refreshed.now c))
          × (get_coin r others t q texts id committed ≡ (
            ok (coin_to_dict texts refreshed.now c),
            emit (cache_hits "coins:detail") committed,
          ))
  stale_after_refresh n c done free found =
      let refreshed = (refresh_coins r others t q texts (some client) draw w).1 in
      get_coin_twice r laws others t q texts id (record refreshed { db = w.db })
        (detail_missing n done) free c refreshed.db found
