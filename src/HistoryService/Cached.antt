-- ===== src/HistoryService/Cached.antt =====
-- A price history over two requests (app/services/crypto_service.py).
use crypto_back.Prelude.{ℕ, ◌≡◌, refl, ◌∙◌, String, none, some, List, ◌∷◌, eq_refl, arith}
use crypto_back.Exec.{ok}
use crypto_back.Metrics.{cache_hits, cache_misses}
use crypto_back.World.{World, emit}
use crypto_back.Redis.{Redis, RedisLaws}
use crypto_back.Sql.{Table, Queries}
use crypto_back.Cache.{lock_of, cache_get, cache_get_or_set}
use crypto_back.Cache.Reads.{with_lock, winner_fills}
use crypto_back.Idempotency.Keys.{not_none-truthy}
use crypto_back.PriceHistory.{PriceHistory, DeadLetter, get_history}
use crypto_back.HistoryService.{
  HistoryResponse, HistorySchema, history_key, fetch_rows, fresh_history, coin_history,
}

module _ {S D : Type 0} (r : Redis S) (laws : RedisLaws r) (others : ℕ → World S D → World S D)
    (t : Table PriceHistory D) (q : Queries PriceHistory D) (dead : Table DeadLetter D)
    (schema : HistorySchema) (nat_text : ℕ → String) (external_id : String) (days : ℕ)
    (w : World S D)
    (miss : cache_get r (history_key r others t q dead schema nat_text external_id days) w.store
      ≡ none)
    (free : r.get (lock_of (history_key r others t q dead schema nat_text external_id days)) w.store
      ≡ none) where
  abbrev key : String
  key = history_key r others t q dead schema nat_text external_id days

  abbrev locked_world : World S D
  locked_world = with_lock r laws others key 300 10 w (omega arith) (omega arith) miss free

  abbrev pub response : List PriceHistory → HistoryResponse
  response rows = record { coin_id = external_id; days = days; prices = rows }

  missed :
      coin_history r others t q dead schema nat_text external_id days w
      ≡ fresh_history r others t q dead schema nat_text external_id days w
  unfolding coin_history
  missed = ground (arith, miss)

  fetched :
      (h : PriceHistory) (hs : List PriceHistory)
      → get_history t q dead external_id days w.now w.db ≡ h ∷ hs
      → fetch_rows r others t q dead schema nat_text external_id days locked_world
        ≡ (ok (schema.dump (response (h ∷ hs))), emit (cache_misses "coins:history") locked_world)
  unfolding fetch_rows
  fetched h hs e = rw e refl

  hit :
      (x : HistoryResponse) (w' : World S D)
      → r.get key w'.store ≡ some (schema.dump x)
      → coin_history r others t q dead schema nat_text external_id days w'
        ≡ (ok x, emit (cache_hits "coins:history") w')
  unfolding coin_history cache_get
  hit x w' e = rw e (
      rw (not_none-truthy (schema.dump x) (schema.dump_is_object x))
        (rw (schema.dump_is_object x) (rw (schema.load-dump x) refl)))

  -- The first request for the history of a coin that has rows in the window, with nothing cached and
  -- no lock held, returns these rows; a request after it, for as long as the key stays, returns the
  -- same without looking at the database.
  pub coin_history_twice :
      (h : PriceHistory) (hs : List PriceHistory) (later : D)
      → get_history t q dead external_id days w.now w.db ≡ h ∷ hs
      → let get = coin_history r others t q dead schema nat_text external_id days in
        let again = record (get w).1 { db = later } in
        ((get w).0 ≡ ok (response (h ∷ hs)))
        × (get again ≡ (ok (response (h ∷ hs)), emit (cache_hits "coins:history") again))
  unfolding fresh_history
  coin_history_twice h hs later rows =
      let filled =
        winner_fills r laws others key 300 10 w (omega arith) (omega arith) miss free
          (fetch_rows r others t q dead schema nat_text external_id days)
          (schema.dump (response (h ∷ hs))) (emit (cache_misses "coins:history") locked_world) key
          (fetched h hs rows) in
      let w' =
        (cache_get_or_set r others key
          (fetch_rows r others t q dead schema nat_text external_id days) 300 10 w).1 in
      rw missed (
        rw filled.0 (
          schema.load-dump (response (h ∷ hs)),
          hit (response (h ∷ hs)) (record w' { db = later }) (filled.1 ∙ rw eq_refl),
        ))
