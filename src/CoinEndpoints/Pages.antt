-- ===== src/CoinEndpoints/Pages.antt =====
-- How many coins a page has (app/api/v1/endpoints/cryptocurrencies.py).
use crypto_back.Prelude.{
  ℕ, ◌-◌, ◌*◌, ◌&&◌, ◌+◌, ◌≤◌, ◌≡◌, String, Bool, true, false, some, List, ◌++◌, length, take, drop,
}
use crypto_back.Prelude.Int.{ℤ, pos, pos_part, leb_ℤ}
use crypto_back.Json.{Json, Items, num, nil, cons, arr, get}
use crypto_back.Errors.{Error}
use crypto_back.Errors.Handlers.{handle}
use crypto_back.Exec.{Result, ok, err}
use crypto_back.World.{World}
use crypto_back.Redis.{Redis, RedisLaws}
use mathlib.Core.List.{Perm}
use crypto_back.Sql.{Table, Queries, QueriesLaws, IsOrder, IsSorted}
use crypto_back.Sql.Sizes.{smaller}
use crypto_back.Coins.{Cryptocurrency, SortBy, sorted_by}
use crypto_back.CoinService.{CoinTexts, coin_dicts, list_key}
use crypto_back.CoinEndpoints.{Messages, Problems, at_least, in_bounds}

-- `len(reply["data"])`
abbrev pub item_count : Items → ℕ
item_count nil = 0
item_count (cons x xs) = item_count xs + 1

-- A reply with one page of the coins of a table, in an order: the coins after those of the pages
-- before it, as many as were asked for, or all that are left; and the numbers beside them.
pub record IsPage (texts : CoinTexts) (before : Cryptocurrency → Cryptocurrency → Bool)
    (rows : List Cryptocurrency) (now page per_page : ℕ) (j : Json) : Type 0 where
  pub all : List Cryptocurrency
  pub complete : Perm all rows
  pub sorted : IsSorted before all
  pub items : Items
  pub shown : get "data" j ≡ some (arr items)
  pub dicts : items ≡ coin_dicts texts now (take per_page (drop ((page - 1) * per_page) all))
  pub size : item_count items ≡ smaller per_page (length rows - (page - 1) * per_page)
  pub total : get "total" j ≡ some (num (pos (length rows)))
  pub page_number : get "page" j ≡ some (num (pos page))
  pub page_size : get "per_page" j ≡ some (num (pos per_page))

-- A page of at most 200 coins, or a refusal that changes nothing.
abbrev pub IsReply :
    {S D : Type 0} → (Json → Type 0) → Bool → ℕ → World S D → Result Json × World S D → Type 0
IsReply IsPageOf true n w (result, end) = (j : Json) × (result ≡ ok j) × IsPageOf j × (n ≤ 200)
IsReply IsPageOf false n w (result, end) =
    (e : Error) × (result ≡ err e) × ((handle e).status_code ≡ 422) × (end ≡ w)

module _ {S D : Type 0} (messages : Messages) (r : Redis S) (laws : RedisLaws r)
    (others : ℕ → World S D → World S D) (t : Table Cryptocurrency D) (q : Queries Cryptocurrency D)
    (query_laws : QueriesLaws t q) (texts : CoinTexts) (name_order : IsOrder texts.name_before)
    (sort_by : SortBy) where
  abbrev IsPageAt : World S D → ℕ → ℕ → Json → Type 0
  IsPageAt w = IsPage texts (sorted_by texts.name_before sort_by) (t.rows w.db) w.now

  abbrev key_of : ℤ → ℤ → String
  key_of page per_page = list_key r others t q texts (pos_part page) (pos_part per_page) sort_by

  -- The bounds of the two parameters.
  abbrev pub is_valid : ℤ → ℤ → Bool
  is_valid page per_page =
      leb_ℤ (pos 1) page && (leb_ℤ (pos 1) per_page && leb_ℤ per_page (pos 200))

  abbrev problems : ℤ → ℤ → Problems
  problems page per_page =
      at_least messages "page" 1 page ++ in_bounds messages "per_page" 1 200 per_page
