-- ===== src/Errors/Handlers.antt =====
-- The status, detail and headers of each exception, and the three handlers that
-- `register_exception_handlers` of app/core/exceptions.py installs.
use Prim.Native.String
use crypto_back.Prelude.{ℕ, String, List, [], ◌∷◌, leb, Bool, Option, none, some}
use crypto_back.Json.{Json, Items, str, arr, obj, nil, cons, end, field}
use crypto_back.Errors.{
  Error, not_found_error, conflict_error, unauthorized_error, forbidden_error,
  external_service_error, circuit_open_error, http_exception_error, request_validation_error,
  status_error, other_error,
}

-- What the subclasses of `HTTPException` pass to `super().__init__`; `none` is another exception.
pub record HttpDetail : Type 0 where
  pub status_code : ℕ
  pub detail : String
  pub headers : List (String × String)

unfoldable pub http_detail : Error → Option HttpDetail
http_detail (not_found_error d) = some (record { status_code = 404; detail = d; headers = [] })
http_detail (conflict_error d) = some (record { status_code = 409; detail = d; headers = [] })
http_detail (unauthorized_error d) =
    some (record { status_code = 401; detail = d; headers = ("WWW-Authenticate", "Bearer") ∷ [] })
http_detail (forbidden_error d) = some (record { status_code = 403; detail = d; headers = [] })
http_detail (external_service_error d) =
    some (record { status_code = 502; detail = d; headers = [] })
http_detail (circuit_open_error service) = some (record {
  status_code = 503;
  detail = String.◌++◌ service " is temporarily unavailable — serving cached data where possible";
  headers = [];
})
http_detail (http_exception_error code d) =
    some (record { status_code = code; detail = d; headers = [] })
http_detail (request_validation_error es) = none
http_detail (status_error code) = none
http_detail (other_error c) = none

-- A `JSONResponse`, and whether the handler wrote an error to the log.
pub record Response : Type 0 where
  pub status_code : ℕ
  pub content : Json
  pub headers : List (String × String)
  pub logged_error : Bool

-- `".".join(locs)`
unfoldable pub join_dots : List String → String
join_dots [] = ""
join_dots (x ∷ []) = x
join_dots (x ∷ y ∷ r) = String.◌++◌ x (String.◌++◌ "." (join_dots (y ∷ r)))

-- `e["loc"][1:]`
abbrev rest_of : List String → List String
rest_of [] = []
rest_of (x ∷ r) = r

unfoldable pub error_items : List (List String × String) → Items
unfolding join_dots
error_items [] = nil
error_items ((loc, msg) ∷ es) =
    cons (obj (field "field" (str (join_dots (rest_of loc))) (field "message" (str msg) end)))
      (error_items es)

unfoldable pub validation_error_handler : List (List String × String) → Response
unfolding error_items
validation_error_handler es = record {
  status_code = 422;
  content =
      obj (field "detail" (str "Validation error") (field "errors" (arr (error_items es)) end));
  headers = [];
  logged_error = Bool.false;
}

unfoldable pub http_exception_handler : HttpDetail → Response
http_exception_handler exc = record {
  status_code = exc.status_code;
  content = obj (field "detail" (str exc.detail) end);
  headers = exc.headers;
  logged_error = leb 500 exc.status_code;
}

unfoldable pub unhandled_exception_handler : Response
unhandled_exception_handler = record {
  status_code = 500;
  content = obj (field "detail" (str "Internal server error") end);
  headers = [];
  logged_error = Bool.true;
}

-- The framework calls the handler of the exception's nearest registered class.
abbrev or_unhandled : Option HttpDetail → Response
unfolding http_exception_handler unhandled_exception_handler
or_unhandled none = unhandled_exception_handler
or_unhandled (some exc) = http_exception_handler exc

unfoldable pub handle : Error → Response
unfolding validation_error_handler http_exception_handler unhandled_exception_handler http_detail
    or_unhandled
handle (request_validation_error es) = validation_error_handler es
handle e = or_unhandled (http_detail e)
