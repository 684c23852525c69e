-- ===== src/Database/Replay.antt =====
-- A watchlist request whose commit is refused (app/api/v1/endpoints/watchlist.py, app/db/database.py).
use crypto_back.Prelude.{ℕ, ◌≡◌, ◌≢◌, refl, String, none, some, arith}
use crypto_back.Errors.{Error}
use crypto_back.Exec.{ok, err, Exec}
use crypto_back.World.{World}
use crypto_back.Redis.{Redis, RedisLaws}
use crypto_back.Sql.{Table, Queries}
use crypto_back.Coins.{Cryptocurrency}
use crypto_back.Watchlist.{WatchlistItem, WatchlistItemResponse, Schema, add_to_watchlist}
use crypto_back.Watchlist.Replay.{add_to_watchlist-replay}
use crypto_back.Database.{get_db}

module _ {S D A : Type 0} (handler : Exec (World S D) A) (w : World S D) where
  -- What a handler that returned leaves when the commit is refused: the database as it was, and the
  -- rest of the state as the handler left it.
  get_db-refused :
      (e : Error) (a : A)
      → (handler w).0 ≡ ok a
      → get_db (some e) handler w ≡ (err e, record (handler w).1 { db = w.db })
  unfolding get_db
  get_db-refused e a done = ground (arith, done)

  get_db-committed : (a : A) → (handler w).0 ≡ ok a → get_db none handler w ≡ handler w
  unfolding get_db
  get_db-committed a done = ground (arith, done)

module _ {S D : Type 0} (r : Redis S) (laws : RedisLaws r) (coins : Table Cryptocurrency D)
    (coin_queries : Queries Cryptocurrency D) (t : Table WatchlistItem D)
    (q : Queries WatchlistItem D) (schema : Schema) (key : String) (key_given : key ≢ "") where
  -- If the commit is refused after a request with an idempotency key that is not empty has returned
  -- its response, nothing is stored in the database; and yet every later request with that key is
  -- answered with that response, and stores nothing either, for as long as the key stays.
  pub refused_commit_replays :
      (new_id user_id coin_id : ℕ) (w : World S D) (response : WatchlistItemResponse) (e : Error)
      → (add_to_watchlist r coins coin_queries t q schema new_id (some key) user_id coin_id w).0
        ≡ ok response
      → (new_id' user_id' coin_id' : ℕ)
      → let post = add_to_watchlist r coins coin_queries t q schema in
        let (result, w') = get_db (some e) (post new_id (some key) user_id coin_id) w in
        (result ≡ err e)
        × (w'.db ≡ w.db)
        × (get_db none (post new_id' (some key) user_id' coin_id') w' ≡ (ok response, w'))
  refused_commit_replays new_id user_id coin_id w response e done new_id' user_id' coin_id' =
      let post = add_to_watchlist r coins coin_queries t q schema in
      let again : World S D = record (post new_id (some key) user_id coin_id w).1 { db = w.db } in
      let replayed =
        add_to_watchlist-replay r laws coins coin_queries t q schema key key_given new_id user_id
          coin_id w response done new_id' user_id' coin_id' w.db in
      rw (get_db-refused (post new_id (some key) user_id coin_id) w e response done) (
        refl,
        refl,
        rw
            (get_db-committed (post new_id' (some key) user_id' coin_id') again response
              (rw replayed refl))
            replayed,
      )
