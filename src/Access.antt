-- ===== src/Access.antt =====
-- Who may call: app/api/v1/dependencies.py for REST, and app/grpc_server/auth_interceptor.py for gRPC.
-- FastAPI's HTTPBearer hands the token over; grpcio hands over the method and the metadata.
pub mod Header
pub mod Tokens
use Prim.Native.Char.{Char, code}
use Prim.Native.String
use text.Mathlib.Text.{starts_with}
use crypto_back.Prelude.{
  ℕ, ◌+◌, String, Bool, true, false, ◌&&◌, ◌||◌, not, Option, none, some, List, [], ◌∷◌, ◌==◌, leb,
  str_eq, if◌then◌else◌,
}
use crypto_back.Errors.{unauthorized_error, forbidden_error}
use crypto_back.Exec.{Result, ok, err, Exec, raise, lift, pure, ◌>>=◌}
use crypto_back.World.{World}
use crypto_back.Sql.{Table}
use crypto_back.Users.{User, get_by_id}
use crypto_back.Security.{Claims, Libraries, decode_token, verify_internal_api_key}
use crypto_back.Auth.{as_uuid, has_type}

module _ {S D : Type 0} (t : Table User D) (l : Libraries) where
  abbrev known_user : Option User → Exec (World S D) User
  known_user none = raise (unauthorized_error "User not found")
  known_user (some u) = pure u

  abbrev user_with : Option String → Exec (World S D) User
  user_with none w = (err (unauthorized_error "Invalid token payload"), w)
  user_with (some sub) w =
      if str_eq sub ""
      then (err (unauthorized_error "Invalid token payload"), w)
      else (do
        user_id ← lift (as_uuid l sub)
        user ← λ w. (get_by_id t user_id w.db, w)
        known_user user)
          w

  abbrev user_of : Claims → Exec (World S D) User
  user_of payload =
      if has_type "access" payload
      then user_with payload.sub
      else raise (unauthorized_error "Invalid token type")

  -- `get_current_user`, with the token that was sent
  unfoldable pub get_current_user : String → Exec (World S D) User
  get_current_user token w = (lift (decode_token l w.now token) >>= user_of) w

unfoldable pub require_admin : User → Result User
require_admin current_user =
    if str_eq current_user.role "admin"
    then ok current_user
    else err (forbidden_error "Admin access required")

-- `require_internal_api_key`, against the key of the settings
unfoldable pub require_internal_api_key : String → String → Result (Unit {0})
require_internal_api_key internal_api_key x_api_key =
    verify_internal_api_key internal_api_key x_api_key

-- `str.isspace`, by code points
abbrev pub is_space : Char → Bool
is_space c =
    (leb 9 (code c) && leb (code c) 13)
    || ((leb 28 (code c) && leb (code c) 32)
        || ((code c == 133)
            || ((code c == 160)
                || ((code c == 5760)
                    || ((leb 8192 (code c) && leb (code c) 8202)
                        || ((code c == 8232)
                            || ((code c == 8233)
                                || ((code c == 8239)
                                    || ((code c == 8287) || (code c == 12288))))))))))

abbrev pub add_word : String → List String → List String
add_word w ws = if str_eq w "" then ws else w ∷ ws

-- The text up to the first space, and the words after it.
unfoldable pub pieces : String → String × List String
pieces String.[] = ("", [])
pieces (String.◌∷◌ c s) =
    let (w, ws) = pieces s in if is_space c then ("", add_word w ws) else (String.◌∷◌ c w, ws)

-- `s.split()`
unfoldable pub split : String → List String
unfolding pieces
split s = let (w, ws) = pieces s in add_word w ws

-- `s.lower() == t` for a text `t` of the letters a to z other than i and k
unfoldable pub lower_eq : String → String → Bool
lower_eq String.[] String.[] = true
lower_eq String.[] (String.◌∷◌ d t) = false
lower_eq (String.◌∷◌ c s) String.[] = false
lower_eq (String.◌∷◌ c s) (String.◌∷◌ d t) =
    let rest = lower_eq s t in
    ((code c == code d) || ((leb 65 (code c) && leb (code c) 90) && (code c + 32 == code d)))
    && rest

abbrev bearer_of : List String → Option String
bearer_of (scheme ∷ token ∷ []) = if lower_eq scheme "bearer" then some token else none
bearer_of parts = none

-- `_extract_bearer`
unfoldable pub extract_bearer : String → Option String
unfolding split lower_eq bearer_of
extract_bearer auth_header = bearer_of (split auth_header)

-- `_is_public`
unfoldable pub is_public : String → Bool
is_public method = starts_with method "/grpc.reflection."

-- What `intercept_service` returns: the continuation's handler, or one that aborts with
-- UNAUTHENTICATED and a detail.
pub data Handler : Type 0 where
  continuation : Handler
  abort_handler : String → Handler

module _ (l : Libraries) where
  abbrev on_payload : Result Claims → Handler
  on_payload (err e) = abort_handler "Invalid or expired token"
  on_payload (ok payload) =
      if has_type "access" payload then continuation else abort_handler "Invalid token type"

  abbrev on_token : ℕ → Option String → Handler
  on_token now none =
      abort_handler "Missing or malformed Authorization metadata (expected 'Bearer <token>')"
  on_token now (some token) = on_payload (decode_token l now token)

  -- `metadata.get("authorization", "")`
  abbrev or_empty : Option String → String
  or_empty none = ""
  or_empty (some s) = s

  -- `intercept_service`, with the entry "authorization" of the metadata
  unfoldable pub intercept_service : ℕ → String → Option String → Handler
  unfolding is_public extract_bearer
  intercept_service now method authorization =
      if is_public method
      then continuation
      else on_token now (extract_bearer (or_empty authorization))
