-- ===== src/CoinEndpoints.antt =====
-- The reads of app/api/v1/endpoints/cryptocurrencies.py, with the bounds of their query parameters.
-- What pydantic says of a number out of bounds is a parameter; a parameter that is missing has its
-- default by the time the bounds are checked.
pub mod Pages
use crypto_back.Prelude.{
  ℕ, String, Bool, true, false, Option, none, some, List, [], ◌∷◌, ◌++◌, if◌then◌else◌,
}
use crypto_back.Prelude.Int.{ℤ, pos, leb_ℤ, pos_part}
use crypto_back.Json.{Json}
use crypto_back.Errors.{request_validation_error}
use crypto_back.Exec.{Exec, raise}
use crypto_back.World.{World}
use crypto_back.Redis.{Redis}
use crypto_back.Sql.{Table, Queries}
use crypto_back.Coins.{Cryptocurrency, SortBy}
use crypto_back.CoinService.{CoinTexts, list_coins, top_movers, get_coin}

pub record Messages : Type 0 where
  -- for a number below the bound `ge`, and above the bound `le`
  pub too_small : ℕ → String
  pub too_large : ℕ → String
  -- for a text that is no UUID
  pub not_uuid : String

abbrev pub Problems : Type 0
Problems = List (List String × String)

module _ (messages : Messages) where
  abbrev pub at_least : String → ℕ → ℤ → Problems
  at_least name bound n =
      if leb_ℤ (pos bound) n then [] else ("query" ∷ name ∷ [], messages.too_small bound) ∷ []

  -- `Query(..., ge=lower, le=upper)`
  unfoldable pub in_bounds : String → ℕ → ℕ → ℤ → Problems
  in_bounds name lower upper n =
      if leb_ℤ n (pos upper)
      then at_least name lower n
      else ("query" ∷ name ∷ [], messages.too_large upper) ∷ []

  -- The handler runs if the parameters have no problem.
  abbrev pub unless : {S A : Type 0} → Problems → Exec S A → Exec S A
  unless [] handler = handler
  unless (x ∷ xs) handler = raise (request_validation_error (x ∷ xs))

  module _ {S D : Type 0} (r : Redis S) (others : ℕ → World S D → World S D)
      (t : Table Cryptocurrency D) (q : Queries Cryptocurrency D) (texts : CoinTexts) where
    -- `GET /cryptocurrencies`
    unfoldable pub list_cryptocurrencies : ℤ → ℤ → SortBy → Exec (World S D) Json
    unfolding in_bounds
    list_cryptocurrencies page per_page sort_by =
        unless (at_least "page" 1 page ++ in_bounds "per_page" 1 200 per_page)
          (list_coins r others t q texts (pos_part page) (pos_part per_page) sort_by)

    -- `GET /cryptocurrencies/top-movers`
    unfoldable pub get_movers : ℤ → Exec (World S D) Json
    unfolding in_bounds
    get_movers limit =
        unless (in_bounds "limit" 1 20 limit) (top_movers r others t q texts (pos_part limit))

    -- `GET /cryptocurrencies/{crypto_id}`; `uuid_of` reads a UUID.
    unfoldable pub get_cryptocurrency : (String → Option ℕ) → String → Exec (World S D) Json
    get_cryptocurrency uuid_of crypto_id = elim (uuid_of crypto_id) [
      | none ↦
          raise (request_validation_error (("path" ∷ "crypto_id" ∷ [], messages.not_uuid) ∷ []))
      | some id ↦ get_coin r others t q texts id
    ]
