-- ===== src/Watchlist/Spec.antt =====
-- What the watchlist promises (app/api/v1/endpoints/watchlist.py): a set of coins for each user, and
-- a status for each request. The ids and the times of the items, and their order, are forgotten.
use crypto_back.Prelude.{ℕ, Bool, true, false, ◌&&◌, List, [], ◌∷◌, ◌==◌, if◌then◌else◌}

-- Which user has which coin.
abbrev pub View : Type 0
View = ℕ → ℕ → Bool

-- A request without an idempotency key; the id is that of the new item.
pub data Call : Type 0 where
  post : (id user_id coin_id : ℕ) → Call
  delete : (user_id coin_id : ℕ) → Call

abbrev pub change : Bool → ℕ → ℕ → View → View
change b user_id coin_id v u c = if (u == user_id) && (c == coin_id) then b else v u c

-- The status and the new view, where `known` says which coins there are.
abbrev pub answer : (ℕ → Bool) → Call → View → ℕ × View
answer known (post id u c) v =
    if known c then (if v u c then (409, v) else (201, change true u c v)) else (404, v)
answer known (delete u c) v = if v u c then (204, change false u c v) else (404, v)

abbrev pub answers : (ℕ → Bool) → List Call → View → List ℕ × View
answers known [] v = ([], v)
answers known (call ∷ calls) v =
    let (status, v') = answer known call v in
    let (statuses, end) = answers known calls v' in (status ∷ statuses, end)
