-- ===== src/Coins.antt =====
-- The coins: app/models/cryptocurrency.py, and app/repositories/crypto_repo.py over the table of
-- coins, with the values that a market listing gives (app/services/crypto_service.py,
-- app/worker/refresh_job.py). An id is a number that stands for a UUID.
pub mod Upsert
pub mod Movers
use crypto_back.Prelude.{
  ℕ, ◌+◌, ◌-◌, ◌*◌, String, Bool, true, false, Option, none, some, List, [], ◌∷◌, map, str_eq, ◌==◌,
  if◌then◌else◌, length, any, is_some,
}
use crypto_back.Prelude.Int.{ℤ, leb_ℤ}
use crypto_back.Json.{
  Json, Items, Fields, null, bool, num, str, arr, obj, nil, cons, end, field, member, get,
}
use crypto_back.Errors.{Error, other_error, type_error, key_error, integrity_error, dbapi_error}
use crypto_back.Exec.{Result, ok, err, Exec, lift, pure, ◌>>=◌}
use crypto_back.Sql.{Table, Queries}
use crypto_back.Sql.Scalar.{scalar_one_or_none}

pub record Cryptocurrency : Type 0 where
  pub id : ℕ
  pub external_id : String
  pub name : String
  pub symbol : String
  pub current_price : Option ℤ
  pub market_cap : Option ℤ
  pub price_change_percentage_24h : Option ℤ
  pub image_url : Option String
  pub market_cap_rank : Option ℤ
  pub last_updated_at : Option ℕ
  pub last_refreshed_at : Option ℕ
  pub created_at : ℕ

-- The primary key, and the unique column.
abbrev pub coin_clash : Cryptocurrency → Cryptocurrency → Bool
coin_clash x y = if x.id == y.id then true else str_eq x.external_id y.external_id

-- The dictionary of one coin that is passed to `upsert_many`.
pub record CoinValues : Type 0 where
  pub external_id : String
  pub name : String
  pub symbol : String
  pub current_price : Option ℤ
  pub market_cap : Option ℤ
  pub price_change_percentage_24h : Option ℤ
  pub image_url : Option String
  pub market_cap_rank : Option ℤ
  pub last_refreshed_at : ℕ

-- `for c in raw`; the keys of a mapping and the characters of a text can be walked, but not
-- subscripted as coins.
unfoldable pub elements : Json → Result (List Json)
elements (arr nil) = ok []
elements (arr (cons x xs)) = elim (elements (arr xs)) [ ok l ↦ ok (x ∷ l) | err e ↦ err e ]
elements (obj end) = ok []
elements (str s) = if str_eq s "" then ok [] else err (other_error type_error)
elements j = err (other_error type_error)

-- `c[k]`
abbrev pub subscript : String → Json → Result Json
subscript k (obj fields) = elim (member k fields) [
  | none ↦ err (other_error key_error)
  | some v ↦ ok v
]
subscript k j = err (other_error type_error)

-- The types of the columns. The database refuses another value in `upsert_many`, the next call
-- after the dictionaries are built; here it is refused as they are built.
abbrev pub text_column : Json → Result String
text_column (str s) = ok s
text_column null = err (other_error integrity_error)
text_column j = err (other_error dbapi_error)

abbrev pub number_column : Option Json → Result (Option ℤ)
number_column none = ok none
number_column (some null) = ok none
number_column (some (num z)) = ok (some z)
number_column (some j) = err (other_error dbapi_error)

abbrev pub optional_text : Option Json → Result (Option String)
optional_text none = ok none
optional_text (some null) = ok none
optional_text (some (str s)) = ok (some s)
optional_text (some j) = err (other_error dbapi_error)

abbrev required : {S : Type 0} → String → Json → Exec S String
required k c = do v ← lift (subscript k c); lift (text_column v)

-- One turn of the loop that builds the dictionaries.
unfoldable pub coin_values : {S : Type 0} → ℕ → Json → Exec S CoinValues
coin_values now c = do
  external_id ← required "id" c
  name ← required "name" c
  symbol ← required "symbol" c
  current_price ← lift (number_column (get "current_price" c))
  market_cap ← lift (number_column (get "market_cap" c))
  change ← lift (number_column (get "price_change_percentage_24h" c))
  image_url ← lift (optional_text (get "image" c))
  market_cap_rank ← lift (number_column (get "market_cap_rank" c))
  pure (record {
    external_id = external_id;
    name = name;
    symbol = symbol;
    current_price = current_price;
    market_cap = market_cap;
    price_change_percentage_24h = change;
    image_url = image_url;
    market_cap_rank = market_cap_rank;
    last_refreshed_at = now;
  })

unfoldable pub coins_of : {S : Type 0} → ℕ → List Json → Exec S (List CoinValues)
unfolding coin_values
coins_of now [] = pure []
coins_of now (c ∷ cs) = do v ← coin_values now c; vs ← coins_of now cs; pure (v ∷ vs)

-- A column of the table that a list may be sorted by; NULL comes last.
pub data SortBy : Type 0 where
  market_cap_rank current_price market_cap name : SortBy

abbrev pub null_last : Option ℤ → Option ℤ → Bool
null_last x none = true
null_last none (some b) = false
null_last (some a) (some b) = leb_ℤ a b

-- `name_before` is the collation of the database.
abbrev pub sorted_by : (String → String → Bool) → SortBy → Cryptocurrency → Cryptocurrency → Bool
sorted_by name_before market_cap_rank x y = null_last x.market_cap_rank y.market_cap_rank
sorted_by name_before current_price x y = null_last x.current_price y.current_price
sorted_by name_before market_cap x y = null_last x.market_cap y.market_cap
sorted_by name_before name x y = name_before x.name y.name

abbrev pub has_change : Cryptocurrency → Bool
has_change c = is_some c.price_change_percentage_24h

-- `.asc()` on the change; NULL does not occur.
abbrev pub change_below : Cryptocurrency → Cryptocurrency → Bool
change_below x y = null_last x.price_change_percentage_24h y.price_change_percentage_24h

-- `index_elements=["external_id"]`
abbrev pub same_external_id : Cryptocurrency → Cryptocurrency → Bool
same_external_id x y = str_eq x.external_id y.external_id

-- The `set_` of the conflict.
abbrev pub set_values : Cryptocurrency → Cryptocurrency → Cryptocurrency
set_values excluded y = record y {
  name = excluded.name;
  symbol = excluded.symbol;
  current_price = excluded.current_price;
  market_cap = excluded.market_cap;
  price_change_percentage_24h = excluded.price_change_percentage_24h;
  image_url = excluded.image_url;
  market_cap_rank = excluded.market_cap_rank;
  last_updated_at = excluded.last_updated_at;
  last_refreshed_at = excluded.last_refreshed_at;
}

-- The row that is inserted for a dictionary, with the columns that have defaults.
abbrev pub new_row : ℕ → ℕ → CoinValues → Cryptocurrency
new_row new_id now v = record {
  id = new_id;
  external_id = v.external_id;
  name = v.name;
  symbol = v.symbol;
  current_price = v.current_price;
  market_cap = v.market_cap;
  price_change_percentage_24h = v.price_change_percentage_24h;
  image_url = v.image_url;
  market_cap_rank = v.market_cap_rank;
  last_updated_at = some now;
  last_refreshed_at = some v.last_refreshed_at;
  created_at = now;
}

-- `draw` gives the ids that `uuid4` draws.
abbrev pub new_rows : (ℕ → ℕ) → ℕ → List CoinValues → List Cryptocurrency
new_rows draw now [] = []
new_rows draw now (v ∷ vs) = new_row (draw (length vs)) now v ∷ new_rows draw now vs

module _ {D : Type 0} (t : Table Cryptocurrency D) (q : Queries Cryptocurrency D) where
  unfoldable pub get_all : (String → String → Bool) → ℕ → ℕ → SortBy → D → List Cryptocurrency × ℕ
  get_all name_before page per_page sort_by d = (
    q.page (λ c. true) (sorted_by name_before sort_by) ((page - 1) * per_page) per_page d,
    q.count d,
  )

  unfoldable pub get_by_id : ℕ → D → Result (Option Cryptocurrency)
  get_by_id crypto_id d = scalar_one_or_none (t.select (λ c. c.id == crypto_id) d)

  unfoldable pub get_by_external_id : String → D → Result (Option Cryptocurrency)
  get_by_external_id external_id d =
      scalar_one_or_none (t.select (λ c. str_eq c.external_id external_id) d)

  -- The mapping by external id; of rows with the same one the last would stay.
  unfoldable pub get_by_external_ids : List String → D → String → Option Cryptocurrency
  get_by_external_ids [] d k = none
  get_by_external_ids (i ∷ is) d k =
      last_with k (t.select (λ c. any (λ x. str_eq c.external_id x) (i ∷ is)) d)
    where
      last_with : String → List Cryptocurrency → Option Cryptocurrency
      last_with k [] = none
      last_with k (c ∷ cs) = elim (last_with k cs) [
        | some x ↦ some x
        | none ↦ if str_eq c.external_id k then some c else none
      ]

  unfoldable pub get_top_movers : ℕ → D → List Cryptocurrency × List Cryptocurrency
  get_top_movers limit d = (
    q.page has_change (λ x y. change_below y x) 0 limit d,
    q.page has_change change_below 0 limit d,
  )

  abbrev counted : D → Result (ℕ × D) → Result ℕ × D
  counted d (ok (n, d')) = (ok n, d')
  counted d (err e) = (err e, d)

  unfoldable pub upsert_many : (ℕ → ℕ) → ℕ → List CoinValues → Exec D ℕ
  upsert_many draw now [] d = (ok 0, d)
  upsert_many draw now (v ∷ vs) d =
      counted d (q.upsert same_external_id set_values (new_rows draw now (v ∷ vs)) d)
