-- ===== src/CoinService.antt =====
-- app/services/crypto_service.py: `class CryptoService`, but for `get_history`. A read looks in the
-- cache first, and after a miss asks the repository in the factory of `cache_get_or_set`. The texts
-- of a UUID, a time and a number are parameters.
pub mod Reads
pub mod Invalidation
use Prim.Native.String
use crypto_back.Prelude.{
  ℕ, zero, suc, ◌-◌, ◌/◌, String, Bool, true, false, Option, none, some, List, [], ◌∷◌, leb,
  if◌then◌else◌,
}
use crypto_back.Prelude.Int.{ℤ, pos, negsuc}
use crypto_back.Json.{Json, Items, null, num, str, arr, obj, nil, cons, end, field, truthy}
use crypto_back.Errors.{not_found_error, other_error, runtime_error}
use crypto_back.Exec.{Result, ok, err, Exec, raise, pure, lift, modify, gets, ◌>>=◌, ◌>>◌}
use crypto_back.Metrics.{cache_hits, cache_misses, coin_refresh_total, coins_updated}
use crypto_back.World.{World, emit}
use crypto_back.Redis.{Redis}
use crypto_back.Sql.{Table, Queries}
use crypto_back.Cache.{cache_get, cache_get_or_set, cache_delete_pattern}
use crypto_back.Coins.{
  Cryptocurrency, SortBy, elements, coins_of, get_all, get_by_id, get_top_movers, upsert_many,
}
use crypto_back.Provider.{Client, fetch_markets}
use crypto_back.Auth.{on_db}

pub record CoinTexts : Type 0 where
  pub uuid_text : ℕ → String
  -- `isoformat()`
  pub iso_text : ℕ → String
  pub nat_text : ℕ → String
  -- the name of the column
  pub column_text : SortBy → String
  -- the collation of the database
  pub name_before : String → String → Bool

abbrev pub number_json : Option ℤ → Json
number_json none = null
number_json (some z) = num z

abbrev negative : ℕ → ℤ
negative zero = pos 0
negative (suc n) = negsuc n

-- `int((now - last_refreshed).total_seconds())`, which is cut off towards zero.
abbrev pub data_age : ℕ → Option ℕ → Json
data_age now none = null
data_age now (some last) =
    if leb last now
    then num (pos ((now - last) / 1000000))
    else num (negative ((last - now) / 1000000))

module _ (texts : CoinTexts) where
  abbrev time_json : Option ℕ → Json
  time_json none = null
  time_json (some t) = str (texts.iso_text t)

  abbrev pub text_json : Option String → Json
  text_json none = null
  text_json (some s) = str s

  -- `_coin_to_dict`
  unfoldable pub coin_to_dict : ℕ → Cryptocurrency → Json
  coin_to_dict now c = obj (
      field "id" (str (texts.uuid_text c.id)) (
        field "external_id" (str c.external_id) (
          field "name" (str c.name) (
            field "symbol" (str c.symbol) (
              field "current_price" (number_json c.current_price) (
                field "market_cap" (number_json c.market_cap) (
                  field "price_change_percentage_24h" (number_json c.price_change_percentage_24h) (
                    field "image_url" (text_json c.image_url) (
                      field "market_cap_rank" (number_json c.market_cap_rank) (
                        field "last_updated_at" (time_json c.last_updated_at) (
                          field "data_age_seconds" (data_age now c.last_refreshed_at) end)))))))))))

  unfoldable pub coin_dicts : ℕ → List Cryptocurrency → Items
  unfolding coin_to_dict
  coin_dicts now [] = nil
  coin_dicts now (c ∷ cs) = cons (coin_to_dict now c) (coin_dicts now cs)

module _ {S D : Type 0} (r : Redis S) (others : ℕ → World S D → World S D) where
  -- What the reads do with what `cache_get` gave.
  abbrev on_cached :
      String → String → Exec (World S D) Json → ℕ → Option Json → Exec (World S D) Json
  on_cached prefix key fetch ttl none = cache_get_or_set r others key fetch ttl 10
  on_cached prefix key fetch ttl (some j) =
      if truthy j
      then modify (emit (cache_hits prefix)) >> pure j
      else cache_get_or_set r others key fetch ttl 10

  -- The last statements of the reads, with the prefix that labels their metrics.
  unfoldable pub read_through : String → String → Exec (World S D) Json → ℕ → Exec (World S D) Json
  read_through prefix key fetch ttl w = on_cached prefix key fetch ttl (cache_get r key w.store) w

module _ {S D : Type 0} (r : Redis S) (others : ℕ → World S D → World S D)
    (t : Table Cryptocurrency D) (q : Queries Cryptocurrency D) (texts : CoinTexts) where
  abbrev pub list_key : ℕ → ℕ → SortBy → String
  list_key page per_page sort_by = String.◌++◌ "coins:list:" (
      String.◌++◌ (texts.nat_text page) (
        String.◌++◌ ":"
          (String.◌++◌ (texts.nat_text per_page) (String.◌++◌ ":" (texts.column_text sort_by)))))

  abbrev pub fetch_list : ℕ → ℕ → SortBy → Exec (World S D) Json
  fetch_list page per_page sort_by w =
      let (coins, total) = get_all t q texts.name_before page per_page sort_by w.db in
      (
        ok (
            obj (
              field "data" (arr (coin_dicts texts w.now coins)) (
                field "total" (num (pos total))
                  (field "page" (num (pos page)) (field "per_page" (num (pos per_page)) end))))),
        emit (cache_misses "coins:list") w,
      )

  -- `get_all` of the service
  unfoldable pub list_coins : ℕ → ℕ → SortBy → Exec (World S D) Json
  unfolding read_through
  list_coins page per_page sort_by =
      read_through r others "coins:list" (list_key page per_page sort_by)
        (fetch_list page per_page sort_by) 60

  abbrev pub detail_key : ℕ → String
  detail_key crypto_id = String.◌++◌ "coins:detail:" (texts.uuid_text crypto_id)

  abbrev found_coin : ℕ → Option Cryptocurrency → Result Json
  found_coin now none = err (not_found_error "Cryptocurrency not found")
  found_coin now (some c) = ok (coin_to_dict texts now c)

  unfoldable pub fetch_detail : ℕ → Exec (World S D) Json
  fetch_detail crypto_id = do
    modify (emit (cache_misses "coins:detail"))
    coin ← λ w. (get_by_id t q crypto_id w.db, w)
    now ← gets (λ w. w.now)
    lift (found_coin now coin)

  -- `get_by_id` of the service
  unfoldable pub get_coin : ℕ → Exec (World S D) Json
  unfolding read_through fetch_detail
  get_coin crypto_id =
      read_through r others "coins:detail" (detail_key crypto_id) (fetch_detail crypto_id) 60

  abbrev fetch_movers : ℕ → Exec (World S D) Json
  fetch_movers limit w =
      let (gainers, losers) = get_top_movers t q limit w.db in
      (
        ok (
            obj (
              field "gainers" (arr (coin_dicts texts w.now gainers))
                (field "losers" (arr (coin_dicts texts w.now losers)) end))),
        emit (cache_misses "coins:top_movers") w,
      )

  -- `get_top_movers` of the service
  unfoldable pub top_movers : ℕ → Exec (World S D) Json
  unfolding read_through
  top_movers limit =
      read_through r others "coins:top_movers"
        (String.◌++◌ "coins:top_movers:" (texts.nat_text limit)) (fetch_movers limit) 60

  -- The three calls of `cache_delete_pattern`.
  unfoldable pub invalidate : World S D → World S D
  invalidate w = record w {
    store =
        cache_delete_pattern r "coins:top_movers:"
          (cache_delete_pattern r "coins:detail:" (cache_delete_pattern r "coins:list:" w.store));
  }

  -- `draw` gives the ids of new coins.
  unfoldable pub store_listing : (ℕ → ℕ) → Json → Exec (World S D) ℕ
  store_listing draw raw w =
      (do cs ← lift (elements raw); vs ← coins_of w.now cs; on_db (upsert_many t q draw w.now vs)) w

  -- `refresh`; a service for reads has no provider.
  unfoldable pub refresh_coins : Option (Client (World S D)) → (ℕ → ℕ) → Exec (World S D) ℕ
  unfolding invalidate store_listing
  refresh_coins none draw = raise (other_error runtime_error)
  refresh_coins (some client) draw = do
    modify (emit coin_refresh_total)
    raw ← fetch_markets client 100 1
    count ← store_listing draw raw
    modify (emit (coins_updated count))
    modify invalidate
    pure count
