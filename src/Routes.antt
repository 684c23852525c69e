-- ===== src/Routes.antt =====
-- The routes of app/api/v1/router.py and of the decorators in app/api/v1/endpoints: method, path and
-- handler, in the order in which they are registered. A path is the list of its parts between
-- slashes; as FastAPI documents it, a parameter in braces takes the place of one part.
pub mod Order
use crypto_back.Prelude.{String, Bool, true, false, ◌&&◌, List, [], ◌∷◌, ◌++◌, map, str_eq}

pub data Part : Type 0 where
  lit : String → Part
  param : String → Part

-- The handlers.
pub data Endpoint : Type 0 where
  register_endpoint login_endpoint refresh_endpoint : Endpoint
  list_cryptocurrencies_endpoint get_top_movers_endpoint refresh_cryptocurrencies_endpoint
        get_price_history_endpoint get_cryptocurrency_endpoint :
      Endpoint
  get_watchlist_endpoint add_to_watchlist_endpoint remove_from_watchlist_endpoint : Endpoint
  get_coin_insight_endpoint : Endpoint

pub record Route : Type 0 where
  pub method : String
  pub path : List Part
  pub endpoint : Endpoint

abbrev route : String → List Part → Endpoint → Route
route method path endpoint = record { method = method; path = path; endpoint = endpoint }

-- `APIRouter(prefix=...)`
abbrev prefixed : List Part → List Route → List Route
prefixed prefix = map (λ (r : Route). record r { path = prefix ++ r.path })

-- One route for each decorator, its path without the prefixes.
abbrev register_route : Route
register_route = route "POST" (lit "register" ∷ []) register_endpoint

abbrev login_route : Route
login_route = route "POST" (lit "login" ∷ []) login_endpoint

abbrev refresh_route : Route
refresh_route = route "POST" (lit "refresh" ∷ []) refresh_endpoint

abbrev list_route : Route
list_route = route "GET" [] list_cryptocurrencies_endpoint

abbrev movers_route : Route
movers_route = route "GET" (lit "top-movers" ∷ []) get_top_movers_endpoint

abbrev refresh_coins_route : Route
refresh_coins_route = route "POST" (lit "refresh" ∷ []) refresh_cryptocurrencies_endpoint

abbrev history_route : Route
history_route = route "GET" (param "external_id" ∷ lit "history" ∷ []) get_price_history_endpoint

abbrev coin_route : Route
coin_route = route "GET" (param "crypto_id" ∷ []) get_cryptocurrency_endpoint

abbrev watchlist_route : Route
watchlist_route = route "GET" [] get_watchlist_endpoint

abbrev add_route : Route
add_route = route "POST" [] add_to_watchlist_endpoint

abbrev remove_route : Route
remove_route = route "DELETE" (param "cryptocurrency_id" ∷ []) remove_from_watchlist_endpoint

abbrev insight_route : Route
insight_route = route "GET" (param "external_id" ∷ lit "insight" ∷ []) get_coin_insight_endpoint

-- The routers of the four files.
abbrev auth_routes : List Route
auth_routes = prefixed (lit "auth" ∷ []) (register_route ∷ login_route ∷ refresh_route ∷ [])

abbrev cryptocurrency_routes : List Route
cryptocurrency_routes =
    prefixed (lit "cryptocurrencies" ∷ [])
      (list_route ∷ movers_route ∷ refresh_coins_route ∷ history_route ∷ coin_route ∷ [])

abbrev watchlist_routes : List Route
watchlist_routes = prefixed (lit "watchlist" ∷ []) (watchlist_route ∷ add_route ∷ remove_route ∷ [])

abbrev insight_routes : List Route
insight_routes = prefixed (lit "cryptocurrencies" ∷ []) (insight_route ∷ [])

-- `router`
unfoldable pub router : List Route
router =
    prefixed (lit "api" ∷ lit "v1" ∷ [])
      (auth_routes ++ (cryptocurrency_routes ++ (watchlist_routes ++ insight_routes)))

abbrev pub path_matches : List Part → List String → Bool
path_matches [] [] = true
path_matches (lit a ∷ parts) (s ∷ path) = str_eq a s && path_matches parts path
path_matches (param name ∷ parts) (s ∷ path) = path_matches parts path
path_matches parts path = false

-- The method and the path of a request.
abbrev pub takes : Route → String → List String → Bool
takes r method path = str_eq r.method method && path_matches r.path path
