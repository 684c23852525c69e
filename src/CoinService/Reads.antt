-- ===== src/CoinService/Reads.antt =====
-- The detail of a coin (app/services/crypto_service.py) over two requests.
use crypto_back.Prelude.{ℕ, ◌≡◌, ◌∙◌, String, none, some, eq_iff, eq_refl, arith}
use crypto_back.Errors.{not_found_error}
use crypto_back.Exec.{ok, err}
use crypto_back.Metrics.{cache_hits, cache_misses}
use crypto_back.World.{World, emit}
use crypto_back.Redis.{Redis, RedisLaws}
use crypto_back.Sql.{Table, Queries}
use crypto_back.Cache.{lock_of, cache_get, cache_get_or_set}
use crypto_back.Cache.Reads.{with_lock, still_missing, winner_fills, winner_raises, lock_of-ne}
use crypto_back.Coins.{Cryptocurrency, get_by_id}
use crypto_back.CoinService.{CoinTexts, coin_to_dict, detail_key, fetch_detail, get_coin}

module _ {S D : Type 0} (r : Redis S) (laws : RedisLaws r) (others : ℕ → World S D → World S D)
    (t : Table Cryptocurrency D) (q : Queries Cryptocurrency D) (texts : CoinTexts) (id : ℕ)
    (w : World S D) (miss : cache_get r (detail_key r others t q texts id) w.store ≡ none)
    (free : r.get (lock_of (detail_key r others t q texts id)) w.store ≡ none) where
  abbrev key : String
  key = detail_key r others t q texts id

  abbrev locked_world : World S D
  locked_world = with_lock r laws others key 60 10 w (omega arith) (omega arith) miss free

  missed :
      get_coin r others t q texts id w
      ≡ cache_get_or_set r others key (fetch_detail r others t q texts id) 60 10 w
  unfolding get_coin
  missed = ground (arith, miss)

  -- A dictionary of a coin is never empty, so a cached one is a hit.
  hit :
      (c : Cryptocurrency) (now : ℕ) (w' : World S D)
      → r.get key w'.store ≡ some (coin_to_dict texts now c)
      → get_coin r others t q texts id w'
        ≡ (ok (coin_to_dict texts now c), emit (cache_hits "coins:detail") w')
  unfolding get_coin cache_get coin_to_dict
  hit c now w' e = ground (arith, e)

  fetched :
      (c : Cryptocurrency)
      → get_by_id t q id w.db ≡ ok (some c)
      → fetch_detail r others t q texts id locked_world
        ≡ (ok (coin_to_dict texts w.now c), emit (cache_misses "coins:detail") locked_world)
  unfolding fetch_detail
  fetched c found = ground (arith, found)

  -- The first request for a coin, with nothing cached and no lock held, reads the database and
  -- returns its row; a request after it, for as long as the key stays, returns the same without
  -- looking at the database, whatever is in it by then.
  pub get_coin_twice :
      (c : Cryptocurrency) (later : D)
      → get_by_id t q id w.db ≡ ok (some c)
      → let (result, w') = get_coin r others t q texts id w in
        let again = record w' { db = later } in
        (result ≡ ok (coin_to_dict texts w.now c))
        × (get_coin r others t q texts id again
            ≡ (ok (coin_to_dict texts w.now c), emit (cache_hits "coins:detail") again))
  get_coin_twice c later found =
      let filled =
        winner_fills r laws others key 60 10 w (omega arith) (omega arith) miss free
          (fetch_detail r others t q texts id) (coin_to_dict texts w.now c)
          (emit (cache_misses "coins:detail") locked_world) key (fetched c found) in
      let w' = (get_coin r others t q texts id w).1 in
      (
        rw missed filled.0,
        hit c w.now (record w' { db = later }) (rw missed (filled.1 ∙ rw eq_refl)),
      )

  not_found_raises :
      get_by_id t q id w.db ≡ ok none
      → fetch_detail r others t q texts id locked_world ≡ (
        err (not_found_error "Cryptocurrency not found"),
        emit (cache_misses "coins:detail") locked_world,
      )
  unfolding fetch_detail
  not_found_raises absent = ground (arith, absent)

  -- For a coin that the database does not have the request raises `NotFoundError` and caches
  -- nothing.
  pub get_coin-not_cached :
      get_by_id t q id w.db ≡ ok none
      → let (result, w') = get_coin r others t q texts id w in
        (result ≡ err (not_found_error "Cryptocurrency not found"))
        × (cache_get r key w'.store ≡ none)
  unfolding cache_get
  get_coin-not_cached absent =
      let raised =
        winner_raises r laws others key 60 10 w (omega arith) (omega arith) miss free
          (fetch_detail r others t q texts id) (not_found_error "Cryptocurrency not found")
          (emit (cache_misses "coins:detail") locked_world) key (not_found_raises absent) in
      (
        rw missed raised.0,
        rw missed (
            ground (
              arith,
              raised.1,
              still_missing r laws others key 60 10 w (omega arith) (omega arith) miss free,
              lock_of-ne key,
              eq_iff key (lock_of key),
            )),
      )
