-- ===== src/Watchlist/Cycle.antt =====
-- Adding a coin to a watchlist, adding it again, and removing it
-- (app/api/v1/endpoints/watchlist.py).
use text.Mathlib.TextEquality.{IsScalar-prop}
use crypto_back.Prelude.{
  ℕ, ◌≡◌, ◌∙◌, refl, sym, ap, false, not, none, some, List, [], ◌∷◌, any, keep_if, ◌==◌, arith,
}
use crypto_back.Errors.{conflict_error, not_found_error}
use crypto_back.Exec.{Result, ok, err}
use crypto_back.Metrics.{watchlist_operations}
use crypto_back.World.{World, emit}
use crypto_back.Redis.{Redis}
use crypto_back.Sql.{Table, Queries, TableLaws}
use crypto_back.Sql.Scalar.{
  scalar_one_or_none, scalar-perm, scalar-append_new, scalar-keep_deleted, with_row-ne-none,
}
use crypto_back.Coins.{Cryptocurrency, get_by_id}
use crypto_back.Idempotency.{check_idempotency, store_idempotency}
use crypto_back.Watchlist.{
  WatchlistItem, Schema, coin_response, item_response, item_clash, is_pair, get_item, add, remove,
  new_item, add_fresh, add_to_watchlist, remove_from_watchlist,
}

WatchlistItem-set : IsSet WatchlistItem
WatchlistItem-set = hlevel IsScalar-prop

pub no_item_clash :
    (x : WatchlistItem) (l : List WatchlistItem)
    → scalar_one_or_none (keep_if (is_pair x.user_id x.cryptocurrency_id) l) ≡ ok none
    → any (λ (y : WatchlistItem). x.id == y.id) l ≡ false
    → any (item_clash x) l ≡ false
unfolding scalar_one_or_none
no_item_clash x [] h k = refl
no_item_clash x (y ∷ l) h k = ground (
  arith,
  no_item_clash x l,
  with_row-ne-none y (scalar_one_or_none (keep_if (is_pair x.user_id x.cryptocurrency_id) l)),
)

module _ {D : Type 0} (t : Table WatchlistItem D) (q : Queries WatchlistItem D)
    (laws : TableLaws t item_clash) (user_id coin_id : ℕ) where
  pub get_item-rows :
      (d : D)
      → get_item t q user_id coin_id d
        ≡ scalar_one_or_none (keep_if (is_pair user_id coin_id) (t.rows d))
  unfolding get_item
  get_item-rows d = scalar-perm WatchlistItem-set (laws.select-perm (is_pair user_id coin_id) d)

  -- A new item under a new id is stored, and is then found.
  add_lem :
      (id now : ℕ) (d : D)
      → get_item t q user_id coin_id d ≡ ok none
      → any (λ (y : WatchlistItem). id == y.id) (t.rows d) ≡ false
      → let item = new_item t q id now user_id coin_id in
        (d' : D) × (t.insert item d ≡ ok d')
        × (add t q id now user_id coin_id d ≡ (ok item, d'))
        × (get_item t q user_id coin_id d' ≡ ok (some item))
  unfolding add
  add_lem id now d missing fresh =
      let item = new_item t q id now user_id coin_id in
      let none_there = sym (get_item-rows d) ∙ missing in
      let (d', e, rows) =
        laws.insert_done item d (no_item_clash item (t.rows d) none_there fresh) in
      (
        d',
        e,
        rw e refl,
        get_item-rows d'
            ∙ rw rows (
                scalar-append_new (is_pair user_id coin_id) item (t.rows d) (ground arith)
                  none_there),
      )

  remove_lem :
      (item : WatchlistItem) (d : D)
      → get_item t q user_id coin_id d ≡ ok (some item)
      → get_item t q user_id coin_id (remove t q item d).1 ≡ ok none
  unfolding remove
  remove_lem item d found =
      get_item-rows (t.delete (λ x. x.id == item.id) d)
      ∙ rw (laws.rows-delete (λ x. x.id == item.id) d) (
          scalar-keep_deleted (is_pair user_id coin_id) (λ x. not (x.id == item.id)) item (t.rows d)
            (sym (get_item-rows d) ∙ found) (ground arith))

module _ {S D : Type 0} (r : Redis S) (coins : Table Cryptocurrency D)
    (coin_queries : Queries Cryptocurrency D) (t : Table WatchlistItem D)
    (q : Queries WatchlistItem D) (laws : TableLaws t item_clash) (schema : Schema)
    (user_id coin_id : ℕ) where
  -- A request without an idempotency key is never a replay.
  pub add_conflict :
      (id : ℕ) (coin : Cryptocurrency) (item : WatchlistItem) (w : World S D)
      → get_by_id coins coin_queries coin_id w.db ≡ ok (some coin)
      → get_item t q user_id coin_id w.db ≡ ok (some item)
      → add_to_watchlist r coins coin_queries t q schema id none user_id coin_id w ≡ (
        err (conflict_error "Already in watchlist"),
        emit (watchlist_operations "add" "conflict") w,
      )
  unfolding add_to_watchlist add_fresh check_idempotency
  add_conflict id coin item w known there = ground (arith, known, there)

  pub add_ok :
      (id : ℕ) (coin : Cryptocurrency) (item : WatchlistItem) (d' : D) (w : World S D)
      → get_by_id coins coin_queries coin_id w.db ≡ ok (some coin)
      → get_item t q user_id coin_id w.db ≡ ok none
      → add t q id w.now user_id coin_id w.db ≡ (ok item, d')
      → add_to_watchlist r coins coin_queries t q schema id none user_id coin_id w ≡ (
        ok (item_response item coin),
        emit (watchlist_operations "add" "success") (record w { db = d' }),
      )
  unfolding add_to_watchlist add_fresh check_idempotency store_idempotency
  add_ok id coin item d' w known missing done = ground (arith, known, missing, done)

  pub remove_ok :
      (item : WatchlistItem) (w : World S D)
      → get_item t q user_id coin_id w.db ≡ ok (some item)
      → remove_from_watchlist r coins coin_queries t q schema user_id coin_id w ≡ (
        ok tt,
        emit (watchlist_operations "remove" "success") (record w { db = (remove t q item w.db).1 }),
      )
  unfolding remove_from_watchlist remove
  remove_ok item w there = ground (arith, there)

  pub remove_missing :
      (w : World S D)
      → get_item t q user_id coin_id w.db ≡ ok none
      → remove_from_watchlist r coins coin_queries t q schema user_id coin_id w ≡ (
        err (not_found_error "Item not found in watchlist"),
        emit (watchlist_operations "remove" "not_found") w,
      )
  unfolding remove_from_watchlist
  remove_missing w missing = ground (arith, missing)

  -- Adding a known coin that is not in the user's watchlist, under a new id, returns the item with
  -- its coin. After it the same request raises `ConflictError` and stores nothing; removing the coin
  -- succeeds, and removing it once more raises `NotFoundError`. What is relied on: adding an item
  -- changes no coin.
  pub watchlist_cycle :
      (id id' : ℕ) (coin : Cryptocurrency) (w : World S D)
      → ((item : WatchlistItem) (d d' : D)
          → t.insert item d ≡ ok d'
          → get_by_id coins coin_queries coin_id d' ≡ get_by_id coins coin_queries coin_id d)
      → get_by_id coins coin_queries coin_id w.db ≡ ok (some coin)
      → get_item t q user_id coin_id w.db ≡ ok none
      → any (λ (y : WatchlistItem). id == y.id) (t.rows w.db) ≡ false
      → let post = add_to_watchlist r coins coin_queries t q schema in
        let delete = remove_from_watchlist r coins coin_queries t q schema user_id coin_id in
        let (result, w') = post id none user_id coin_id w in
        (result ≡ ok (record { id = id; added_at = w.now; cryptocurrency = coin_response coin }))
        × (post id' none user_id coin_id w' ≡ (
          err (conflict_error "Already in watchlist"),
          emit (watchlist_operations "add" "conflict") w',
        ))
        × ((delete w').0 ≡ ok tt)
        × ((delete (delete w').1).0 ≡ err (not_found_error "Item not found in watchlist"))
  watchlist_cycle id id' coin w apart known missing fresh =
      let item = new_item t q id w.now user_id coin_id in
      let (d', inserted, added, found) =
        add_lem t q laws user_id coin_id id w.now w.db missing fresh in
      let w' : World S D = emit (watchlist_operations "add" "success") (record w { db = d' }) in
      let removed : World S D =
        emit (watchlist_operations "remove" "success")
          (record w' { db = (remove t q item d').1 }) in
      rw (add_ok id coin item d' w known missing added) (
        refl,
        add_conflict id' coin item w' (apart item w.db d' inserted ∙ known) found,
        rw (remove_ok item w' found) refl,
        rw (remove_ok item w' found) (
            ap (λ (o : Result Unit × World S D). o.0)
              (remove_missing removed (remove_lem t q laws user_id coin_id item d' found))),
      )
