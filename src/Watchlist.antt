-- ===== src/Watchlist.antt =====
-- The watchlist: `class WatchlistItem` of app/models/watchlist.py, app/repositories/watchlist_repo.py
-- and the handlers of app/api/v1/endpoints/watchlist.py for a user who is logged in, so that the row
-- to which `user_id` refers is taken to be there. What pydantic does with a response of
-- app/schemas/watchlist.py is a parameter.
pub mod Replay
pub mod Cycle
pub mod Spec
pub mod Rows
pub mod Fresh
pub mod Refinement
use crypto_back.Prelude.{
  ℕ, ◌≡◌, String, Bool, true, false, ◌&&◌, ◌||◌, Option, none, some, List, [], ◌∷◌, ◌==◌, leb,
  length, if◌then◌else◌,
}
use crypto_back.Prelude.Int.{ℤ}
use crypto_back.Json.{Json, truthy}
use crypto_back.Errors.{Error, conflict_error, not_found_error}
use crypto_back.Exec.{Result, ok, err, Exec, raise, pure, lift, modify, ◌>>=◌, ◌>>◌}
use crypto_back.Metrics.{watchlist_operations}
use crypto_back.World.{World, emit}
use crypto_back.Redis.{Redis}
use crypto_back.Sql.{Table, Queries}
use crypto_back.Sql.Scalar.{scalar_one_or_none}
use crypto_back.Coins.{Cryptocurrency, get_by_id}
use crypto_back.Idempotency.{check_idempotency, store_idempotency, idempotency_ttl}
use crypto_back.Auth.{on_db}

pub record WatchlistItem : Type 0 where
  pub id : ℕ
  pub user_id : ℕ
  pub cryptocurrency_id : ℕ
  pub added_at : ℕ

-- The primary key, and `uq_user_crypto`.
abbrev pub item_clash : WatchlistItem → WatchlistItem → Bool
item_clash x y =
    (x.id == y.id) || ((x.user_id == y.user_id) && (x.cryptocurrency_id == y.cryptocurrency_id))

abbrev pub is_pair : ℕ → ℕ → WatchlistItem → Bool
is_pair user_id cryptocurrency_id x =
    (x.user_id == user_id) && (x.cryptocurrency_id == cryptocurrency_id)

-- `.order_by(WatchlistItem.added_at.desc())`
abbrev pub added_later : WatchlistItem → WatchlistItem → Bool
added_later x y = leb y.added_at x.added_at

module _ {D : Type 0} (t : Table WatchlistItem D) (q : Queries WatchlistItem D) where
  unfoldable pub get_user_watchlist : ℕ → D → List WatchlistItem
  get_user_watchlist user_id d = q.ordered (λ x. x.user_id == user_id) added_later d

  unfoldable pub get_item : ℕ → ℕ → D → Result (Option WatchlistItem)
  get_item user_id cryptocurrency_id d =
      scalar_one_or_none (t.select (is_pair user_id cryptocurrency_id) d)

  abbrev added : WatchlistItem → D → Result D → Result WatchlistItem × D
  added item d (ok d') = (ok item, d')
  added item d (err e) = (err e, d)

  abbrev pub new_item : ℕ → ℕ → ℕ → ℕ → WatchlistItem
  new_item new_id now user_id cryptocurrency_id = record {
    id = new_id;
    user_id = user_id;
    cryptocurrency_id = cryptocurrency_id;
    added_at = now;
  }

  -- `new_id` is what `uuid.uuid4()` gives, and `now` what the server's `now()` does.
  unfoldable pub add : ℕ → ℕ → ℕ → ℕ → Exec D WatchlistItem
  add new_id now user_id cryptocurrency_id d =
      let item = new_item new_id now user_id cryptocurrency_id in added item d (t.insert item d)

  unfoldable pub remove : WatchlistItem → Exec D Unit
  remove item = modify (t.delete (λ x. x.id == item.id))

-- `CryptocurrencyResponse` of app/schemas/cryptocurrency.py
pub record CryptocurrencyResponse : Type 0 where
  pub id : ℕ
  pub external_id : String
  pub name : String
  pub symbol : String
  pub current_price : Option ℤ
  pub market_cap : Option ℤ
  pub price_change_percentage_24h : Option ℤ
  pub image_url : Option String
  pub market_cap_rank : Option ℤ
  pub last_updated_at : Option ℕ
  pub data_age_seconds : Option ℤ

-- From the attributes of a coin, which has none for the age of its data.
abbrev pub coin_response : Cryptocurrency → CryptocurrencyResponse
coin_response c = record {
  id = c.id;
  external_id = c.external_id;
  name = c.name;
  symbol = c.symbol;
  current_price = c.current_price;
  market_cap = c.market_cap;
  price_change_percentage_24h = c.price_change_percentage_24h;
  image_url = c.image_url;
  market_cap_rank = c.market_cap_rank;
  last_updated_at = c.last_updated_at;
  data_age_seconds = none;
}

pub record WatchlistItemResponse : Type 0 where
  pub id : ℕ
  pub added_at : ℕ
  pub cryptocurrency : CryptocurrencyResponse

-- `WatchlistItemResponse.model_validate(item)` of an item with its coin
abbrev pub item_response : WatchlistItem → Cryptocurrency → WatchlistItemResponse
item_response item coin = record {
  id = item.id;
  added_at = item.added_at;
  cryptocurrency = coin_response coin;
}

-- `model_dump(mode="json")` and `WatchlistItemResponse(**cached)`.
pub record Schema : Type 0 where
  pub dump : WatchlistItemResponse → Json
  pub load : Json → Result WatchlistItemResponse
  -- what was written is an object with fields, and is read back
  pub load-dump : (x : WatchlistItemResponse) → load (dump x) ≡ ok x
  pub dump_is_object : (x : WatchlistItemResponse) → truthy (dump x) ≡ true

module _ {S D : Type 0} (r : Redis S) (coins : Table Cryptocurrency D)
    (coin_queries : Queries Cryptocurrency D) (t : Table WatchlistItem D)
    (q : Queries WatchlistItem D) (schema : Schema) where
  -- The items with their number.
  unfoldable pub get_watchlist : ℕ → World S D → List WatchlistItem × ℕ
  unfolding get_user_watchlist
  get_watchlist user_id w = let items = get_user_watchlist t q user_id w.db in (items, length items)

  -- The statements after `item = await watchlist_repo.add(...)`.
  abbrev respond :
      Option String → Cryptocurrency → WatchlistItem → Exec (World S D) WatchlistItemResponse
  unfolding store_idempotency
  respond key coin item w =
      let response = item_response item coin in
      let w' = emit (watchlist_operations "add" "success") w in
      (
        ok response,
        record w' {
          store = store_idempotency r key (schema.dump response) idempotency_ttl w'.store;
        },
      )

  abbrev add_missing :
      ℕ
      → Option String
      → ℕ
      → ℕ
      → Cryptocurrency
      → Option WatchlistItem
      → Exec (World S D) WatchlistItemResponse
  unfolding respond add
  add_missing new_id key user_id cryptocurrency_id coin (some item) w =
      (modify (emit (watchlist_operations "add" "conflict"))
          >> raise (conflict_error "Already in watchlist"))
        w
  add_missing new_id key user_id cryptocurrency_id coin none w =
      (on_db (add t q new_id w.now user_id cryptocurrency_id) >>= respond key coin) w

  abbrev add_coin :
      ℕ → Option String → ℕ → ℕ → Option Cryptocurrency → Exec (World S D) WatchlistItemResponse
  unfolding add_missing get_item
  add_coin new_id key user_id cryptocurrency_id none w =
      (err (not_found_error "Cryptocurrency not found"), w)
  add_coin new_id key user_id cryptocurrency_id (some coin) w =
      (lift (get_item t q user_id cryptocurrency_id w.db)
          >>= add_missing new_id key user_id cryptocurrency_id coin)
        w

  -- The part after a miss.
  unfoldable pub add_fresh : ℕ → Option String → ℕ → ℕ → Exec (World S D) WatchlistItemResponse
  unfolding add_coin
  add_fresh new_id key user_id cryptocurrency_id w =
      (lift (get_by_id coins coin_queries cryptocurrency_id w.db)
          >>= add_coin new_id key user_id cryptocurrency_id)
        w

  abbrev pub on_checked :
      Option Json → ℕ → Option String → ℕ → ℕ → Exec (World S D) WatchlistItemResponse
  unfolding add_fresh
  on_checked none new_id key user_id cryptocurrency_id =
      add_fresh new_id key user_id cryptocurrency_id
  on_checked (some j) new_id key user_id cryptocurrency_id =
      if truthy j then lift (schema.load j) else add_fresh new_id key user_id cryptocurrency_id

  unfoldable pub add_to_watchlist :
      ℕ → Option String → ℕ → ℕ → Exec (World S D) WatchlistItemResponse
  unfolding on_checked check_idempotency
  add_to_watchlist new_id key user_id cryptocurrency_id w =
      on_checked (check_idempotency r key w.store) new_id key user_id cryptocurrency_id w

  abbrev remove_found : Option WatchlistItem → Exec (World S D) Unit
  unfolding remove
  remove_found none =
      modify (emit (watchlist_operations "remove" "not_found"))
      >> raise (not_found_error "Item not found in watchlist")
  remove_found (some item) =
      on_db (remove t q item) >> modify (emit (watchlist_operations "remove" "success"))

  unfoldable pub remove_from_watchlist : ℕ → ℕ → Exec (World S D) Unit
  unfolding remove_found get_item
  remove_from_watchlist user_id cryptocurrency_id w =
      (lift (get_item t q user_id cryptocurrency_id w.db) >>= remove_found) w
