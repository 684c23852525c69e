-- ===== src/Routes/Order.antt =====
-- Where the order of the routes matters (app/api/v1/endpoints/cryptocurrencies.py).
use crypto_back.Prelude.{
  ◌≡◌, refl, String, Bool, true, false, not, ◌&&◌, ◌||◌, List, [], ◌∷◌, All, str_eq, eq_iff, arith,
}
use crypto_back.Routes.{
  Part, lit, param, Endpoint, get_top_movers_endpoint, get_cryptocurrency_endpoint, Route, router,
  path_matches, takes,
}

abbrev overlap : List Part → List Part → Bool
overlap [] [] = true
overlap (lit a ∷ p) (lit b ∷ q) = str_eq a b && overlap p q
overlap (lit a ∷ p) (param y ∷ q) = overlap p q
overlap (param x ∷ p) (y ∷ q) = overlap p q
overlap p q = false

-- Two patterns that a path matches overlap.
overlap-path_matches :
    (p q : List Part) (path : List String)
    → path_matches p path ≡ true
    → path_matches q path ≡ true
    → overlap p q ≡ true
overlap-path_matches [] [] path h k = refl
overlap-path_matches (lit a ∷ p) (lit b ∷ q) (s ∷ path) h k =
    ground (arith, overlap-path_matches p q path, eq_iff a s, eq_iff b s, eq_iff a b)
overlap-path_matches (lit a ∷ p) (param y ∷ q) (s ∷ path) h k =
    overlap-path_matches p q path (ground arith) k
overlap-path_matches (param x ∷ p) (lit b ∷ q) (s ∷ path) h k =
    overlap-path_matches p q path h (ground arith)
overlap-path_matches (param x ∷ p) (param y ∷ q) (s ∷ path) h k = overlap-path_matches p q path h k
overlap-path_matches p q path h k = ground arith

-- The one pair of handlers whose order matters.
abbrev pub is_shadowed : Endpoint → Endpoint → Bool
is_shadowed get_top_movers_endpoint get_cryptocurrency_endpoint = true
is_shadowed e f = false

abbrev may_follow : Route → Route → Bool
may_follow r r' =
    not (str_eq r.method r'.method && overlap r.path r'.path) || is_shadowed r.endpoint r'.endpoint

abbrev all_follow : Route → List Route → Bool
all_follow r [] = true
all_follow r (x ∷ xs) = may_follow r x && all_follow r xs

abbrev in_order : List Route → Bool
in_order [] = true
in_order (r ∷ rs) = all_follow r rs && in_order rs

-- A request that both routes take is one for the top movers that could be read as one for a coin.
abbrev pub IsApart : Route → Route → Type 0
IsApart r r' =
    (method : String) (path : List String)
    → takes r method path ≡ true
    → takes r' method path ≡ true
    → is_shadowed r.endpoint r'.endpoint ≡ true

-- Every route with every later one.
abbrev pub AreApart : List Route → Type 0
AreApart [] = Unit
AreApart (r ∷ rs) = All (IsApart r) rs × AreApart rs

may_follow-IsApart : (r r' : Route) → may_follow r r' ≡ true → IsApart r r'
may_follow-IsApart r r' h method path here there = ground (
  arith,
  overlap-path_matches r.path r'.path path,
  eq_iff r.method method,
  eq_iff r'.method method,
  eq_iff r.method r'.method,
)

all_follow-IsApart : (r : Route) (rs : List Route) → all_follow r rs ≡ true → All (IsApart r) rs
all_follow-IsApart r [] h = tt
all_follow-IsApart r (x ∷ xs) h =
    (may_follow-IsApart r x (ground arith), all_follow-IsApart r xs (ground arith))

in_order-AreApart : (rs : List Route) → in_order rs ≡ true → AreApart rs
in_order-AreApart [] h = tt
in_order-AreApart (r ∷ rs) h =
    (all_follow-IsApart r rs (ground arith), in_order-AreApart rs (ground arith))

-- No request is taken by two routes of the API, whatever its method and path, except by
-- `get_top_movers` and the later `get_cryptocurrency`: the order of all other routes is of no
-- consequence.
pub router-AreApart : AreApart router
unfolding router
router-AreApart = in_order-AreApart router refl
