-- ===== src/Watchlist/Replay.antt =====
-- A watchlist request that is sent again with its idempotency key
-- (app/api/v1/endpoints/watchlist.py).
use crypto_back.Prelude.{
  ℕ, ◌≡◌, ◌≢◌, refl, Bool-cases, inl, inr, String, true, Option, none, some, arith,
}
use crypto_back.Json.{Json, truthy}
use crypto_back.Exec.{ok}
use crypto_back.World.{World}
use crypto_back.Redis.{Redis, RedisLaws}
use crypto_back.Sql.{Table, Queries}
use crypto_back.Coins.{Cryptocurrency}
use crypto_back.Idempotency.{check_idempotency, store_idempotency, idempotency_ttl}
use crypto_back.Idempotency.Keys.{check_idempotency-store_idempotency}
use crypto_back.Watchlist.{
  WatchlistItem, WatchlistItemResponse, Schema, add_fresh, on_checked, add_to_watchlist,
}

module _ {S D : Type 0} (r : Redis S) (laws : RedisLaws r) (coins : Table Cryptocurrency D)
    (coin_queries : Queries Cryptocurrency D) (t : Table WatchlistItem D)
    (q : Queries WatchlistItem D) (schema : Schema) (key : String) (key_given : key ≢ "") where
  fresh_stores :
      (new_id user_id coin_id : ℕ) (w : World S D) (response : WatchlistItemResponse)
      → let (result, w') =
          add_fresh r coins coin_queries t q schema new_id (some key) user_id coin_id w in
        result ≡ ok response
        → w'.store ≡ store_idempotency r (some key) (schema.dump response) idempotency_ttl w.store
  unfolding add_fresh
  fresh_stores new_id user_id coin_id w response done = ground arith

  -- A request that finds a response under its key returns it and changes nothing.
  replays :
      (new_id user_id coin_id : ℕ) (w : World S D) (j : Json) (response : WatchlistItemResponse)
      → check_idempotency r (some key) w.store ≡ some j
      → truthy j ≡ true
      → schema.load j ≡ ok response
      → add_to_watchlist r coins coin_queries t q schema new_id (some key) user_id coin_id w
        ≡ (ok response, w)
  unfolding add_to_watchlist
  replays new_id user_id coin_id w j response found full loads = ground arith

  -- What a request that returned has left under its key.
  pub record Left (response : WatchlistItemResponse) (s : S) : Type 0 where
    pub value : Json
    pub found : check_idempotency r (some key) s ≡ some value
    pub full : truthy value ≡ true
    pub loads : schema.load value ≡ ok response

  fresh_leaves :
      (new_id user_id coin_id : ℕ) (w : World S D) (response : WatchlistItemResponse)
      → let (result, w') =
          add_fresh r coins coin_queries t q schema new_id (some key) user_id coin_id w in
        result ≡ ok response → Left response w'.store
  fresh_leaves new_id user_id coin_id w response done =
      rw (fresh_stores new_id user_id coin_id w response done) (record {
        value = schema.dump response;
        found =
            check_idempotency-store_idempotency r laws key key_given (schema.dump response)
              idempotency_ttl w.store (schema.dump_is_object response) (omega arith);
        full = schema.dump_is_object response;
        loads = schema.load-dump response;
      })

  checked_leaves :
      (o : Option Json) (new_id user_id coin_id : ℕ) (w : World S D)
      (response : WatchlistItemResponse)
      → check_idempotency r (some key) w.store ≡ o
      → let (result, w') =
          on_checked r coins coin_queries t q schema o new_id (some key) user_id coin_id w in
        result ≡ ok response → Left response w'.store
  unfolding on_checked
  checked_leaves none new_id user_id coin_id w response e =
      fresh_leaves new_id user_id coin_id w response
  checked_leaves (some j) new_id user_id coin_id w response e = elim (Bool-cases (truthy j)) [
    | inl full ↦ rw full (λ done. record { value = j; found = e; full = full; loads = done })
    | inr not_full ↦ rw not_full (fresh_leaves new_id user_id coin_id w response)
  ]

  leaves :
      (new_id user_id coin_id : ℕ) (w : World S D) (response : WatchlistItemResponse)
      → let (result, w') =
          add_to_watchlist r coins coin_queries t q schema new_id (some key) user_id coin_id w in
        result ≡ ok response → Left response w'.store
  unfolding add_to_watchlist
  leaves new_id user_id coin_id w response =
      checked_leaves (check_idempotency r (some key) w.store) new_id user_id coin_id w response refl

  -- Once a request with an idempotency key that is not empty has returned a response, every later
  -- request with that key returns the same response and changes nothing, for as long as the key
  -- stays: whatever is in the database by then, and whichever user sends it, for whichever coin.
  pub add_to_watchlist-replay :
      (new_id user_id coin_id : ℕ) (w : World S D) (response : WatchlistItemResponse)
      → (add_to_watchlist r coins coin_queries t q schema new_id (some key) user_id coin_id w).0
        ≡ ok response
      → (new_id' user_id' coin_id' : ℕ) (later : D)
      → let again =
          record (add_to_watchlist r coins coin_queries t q schema new_id
            (some key)
            user_id
            coin_id
            w).1 { db = later } in
        add_to_watchlist r coins coin_queries t q schema new_id' (some key) user_id' coin_id' again
        ≡ (ok response, again)
  add_to_watchlist-replay new_id user_id coin_id w response done new_id' user_id' coin_id' later =
      let left = leaves new_id user_id coin_id w response done in
      replays new_id' user_id' coin_id'
        (record (add_to_watchlist r coins coin_queries t q schema new_id (some key) user_id coin_id
          w).1 { db = later })
        left.value response left.found left.full left.loads
