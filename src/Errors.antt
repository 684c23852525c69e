-- ===== src/Errors.antt =====
-- app/core/exceptions.py, and the exceptions of other packages that the program catches or lets
-- through. An exception is a value; its class decides which `except` clause takes it.
pub mod Handlers
pub mod Responses
use crypto_back.Prelude.{ℕ, String, Bool, true, false, ◌||◌, List, [], ◌∷◌}

-- The classes that the program tells apart.
pub data Class : Type 0 where
  -- `Exception`
  exception : Class
  -- `fastapi.HTTPException` and the subclasses that the program declares
  http_exception not_found conflict unauthorized forbidden external_service circuit_open : Class
  request_validation : Class
  -- `httpx.HTTPError` and its subclass `httpx.HTTPStatusError`
  http_error http_status_error : Class
  -- `anthropic.APIError` and its subclasses
  api_error authentication_error rate_limit_error api_connection_error : Class
  -- Python's own, pydantic's `ValidationError` and SQLAlchemy's
  type_error value_error key_error runtime_error validation_error integrity_error dbapi_error
        multiple_results :
      Class

unfoldable pub Class-discrete : Discrete Class
Class-discrete = hlevel

-- The exceptions that are raised, with what their handlers read of them.
pub data Error : Type 0 where
  not_found_error : String → Error
  conflict_error : String → Error
  unauthorized_error : String → Error
  forbidden_error : String → Error
  external_service_error : String → Error
  circuit_open_error : String → Error
  -- a bare `HTTPException(status_code, detail)`
  http_exception_error : ℕ → String → Error
  -- the locations and the messages of `exc.errors()`
  request_validation_error : List (List String × String) → Error
  -- `httpx.HTTPStatusError`, by `e.response.status_code`
  status_error : ℕ → Error
  -- any other exception, by its class
  other_error : Class → Error

unfoldable pub class_of : Error → Class
class_of (not_found_error d) = not_found
class_of (conflict_error d) = conflict
class_of (unauthorized_error d) = unauthorized
class_of (forbidden_error d) = forbidden
class_of (external_service_error d) = external_service
class_of (circuit_open_error s) = circuit_open
class_of (http_exception_error c d) = http_exception
class_of (request_validation_error es) = request_validation
class_of (status_error code) = http_status_error
class_of (other_error c) = c

-- `issubclass(c, d)`
unfoldable pub issubclass : Class → Class → Bool
unfolding Class-discrete
issubclass c exception = true
issubclass not_found http_exception = true
issubclass conflict http_exception = true
issubclass unauthorized http_exception = true
issubclass forbidden http_exception = true
issubclass external_service http_exception = true
issubclass circuit_open http_exception = true
issubclass http_exception http_exception = true
issubclass http_status_error http_error = true
issubclass http_error http_error = true
issubclass authentication_error api_error = true
issubclass rate_limit_error api_error = true
issubclass api_connection_error api_error = true
issubclass api_error api_error = true
issubclass validation_error value_error = true
issubclass c d = elim (Class-discrete c d) [ yes p ↦ true | no p ↦ false ]

-- `issubclass(c, ds)` for a tuple of classes.
unfoldable pub issubclass_any : Class → List Class → Bool
unfolding issubclass
issubclass_any c [] = false
issubclass_any c (d ∷ ds) = issubclass c d || issubclass_any c ds
