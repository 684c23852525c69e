-- ===== src/Coins/Upsert.antt =====
-- `upsert_many` of app/repositories/crypto_repo.py, as a change of the mapping from external ids to
-- coins.
use crypto_back.Prelude.{
  ℕ, suc, ◌≡◌, refl, sym, ap, ◌∙◌, String, false, Option, none, some, List, [], ◌∷◌, ◌++◌, map,
  str_eq, eq_iff, if◌then◌else◌, length, any, is_some, arith,
}
use crypto_back.Exec.{ok}
use crypto_back.Sql.{Table, Queries, QueriesLaws, IsApart, upsert_row, upsert_rows}
use crypto_back.Coins.{
  Cryptocurrency, CoinValues, same_external_id, set_values, new_rows, upsert_many,
}

-- The coin with an external id.
abbrev pub find_coin : String → List Cryptocurrency → Option Cryptocurrency
find_coin k [] = none
find_coin k (c ∷ cs) = if str_eq c.external_id k then some c else find_coin k cs

-- What becomes of a coin for which there are new values: only its id and its creation time stay.
abbrev pub refreshed : Option Cryptocurrency → Cryptocurrency → Cryptocurrency
refreshed none x = x
refreshed (some y) x = record x { id = y.id; created_at = y.created_at }

abbrev pub updated : Option Cryptocurrency → Option Cryptocurrency → Option Cryptocurrency
updated old none = old
updated old (some x) = some (refreshed old x)

any-same :
    (x : Cryptocurrency) (l : List Cryptocurrency)
    → any (same_external_id x) l ≡ is_some (find_coin x.external_id l)
any-same x [] = refl
any-same x (c ∷ cs) =
    ground
      (arith, any-same x cs, eq_iff x.external_id c.external_id, eq_iff c.external_id x.external_id)

abbrev set_in : Cryptocurrency → Cryptocurrency → Cryptocurrency
set_in x y = if same_external_id x y then set_values x y else y

set_values-refreshed :
    (x y : Cryptocurrency) → x.external_id ≡ y.external_id → set_values x y ≡ refreshed (some y) x
set_values-refreshed x y e =
    ap (λ (k : String). record (refreshed (some y) x) { external_id = k }) (sym e)

find_coin-map :
    (k : String) (x : Cryptocurrency) (l : List Cryptocurrency)
    → find_coin k (map (set_in x) l) ≡ (
        if str_eq x.external_id k
        then elim (find_coin k l) [ none ↦ none | some y ↦ some (refreshed (some y) x) ]
        else find_coin k l)
find_coin-map k x [] = ground arith
find_coin-map k x (c ∷ cs) = ground (
  arith,
  find_coin-map k x cs,
  set_values-refreshed x c,
  eq_iff x.external_id c.external_id,
  eq_iff x.external_id k,
  eq_iff c.external_id k,
)

find_coin-append :
    (k : String) (x : Cryptocurrency) (l : List Cryptocurrency)
    → find_coin k (l ++ x ∷ []) ≡ elim (find_coin k l) [
      | some y ↦ some y
      | none ↦ if str_eq x.external_id k then some x else none
    ]
find_coin-append k x [] = refl
find_coin-append k x (c ∷ cs) = ground (arith, find_coin-append k x cs)

find_coin-upsert_row :
    (k : String) (x : Cryptocurrency) (l : List Cryptocurrency)
    → find_coin k (upsert_row same_external_id set_values x l)
      ≡ (if str_eq x.external_id k then some (refreshed (find_coin k l) x) else find_coin k l)
find_coin-upsert_row k x l =
    ground
      (arith, any-same x l, find_coin-map k x l, find_coin-append k x l, eq_iff x.external_id k)

find_coin-ne :
    (x : Cryptocurrency) (xs : List Cryptocurrency)
    → any (same_external_id x) xs ≡ false
    → find_coin x.external_id xs ≡ none
find_coin-ne x xs h = ground (arith, any-same x xs)

find_coin-upsert_rows :
    (k : String) (xs l : List Cryptocurrency)
    → IsApart same_external_id xs
    → find_coin k (upsert_rows same_external_id set_values xs l)
      ≡ updated (find_coin k l) (find_coin k xs)
find_coin-upsert_rows k [] l h = refl
find_coin-upsert_rows k (x ∷ xs) l h = ground (
  arith,
  find_coin-upsert_rows k xs (upsert_row same_external_id set_values x l) h.1,
  find_coin-upsert_row k x l,
  find_coin-ne x xs h.0,
  eq_iff x.external_id k,
)

length-new_rows :
    (draw : ℕ → ℕ) (now : ℕ) (vs : List CoinValues) → length (new_rows draw now vs) ≡ length vs
length-new_rows draw now [] = refl
length-new_rows draw now (v ∷ vs) = ap suc (length-new_rows draw now vs)

module _ {D : Type 0} (t : Table Cryptocurrency D) (q : Queries Cryptocurrency D)
    (laws : QueriesLaws t q) where
  -- If no two of the coins have the same external id, `upsert_many` returns how many they are.
  -- After it a coin that was there has the new values under its old id and creation time, a coin
  -- that was not is there with all its values, and every other coin is as before.
  pub upsert_many-find_coin :
      (draw : ℕ → ℕ) (now : ℕ) (vs : List CoinValues) (d : D) (k : String)
      → IsApart same_external_id (new_rows draw now vs)
      → let (result, d') = upsert_many t q draw now vs d in
        (result ≡ ok (length vs))
        × (find_coin k (t.rows d')
            ≡ updated (find_coin k (t.rows d)) (find_coin k (new_rows draw now vs)))
  unfolding upsert_many
  upsert_many-find_coin draw now [] d k apart = (refl, refl)
  upsert_many-find_coin draw now (v ∷ vs) d k apart =
      let xs = new_rows draw now (v ∷ vs) in
      let (d', done, rows) = laws.upsert_done same_external_id set_values xs d apart in
      rw done (
        ap ok (length-new_rows draw now (v ∷ vs)),
        ap (find_coin k) rows ∙ find_coin-upsert_rows k xs (t.rows d) apart,
      )
