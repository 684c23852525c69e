-- ===== src/Errors/Responses.antt =====
-- The responses of the exception handlers of app/core/exceptions.py, for every exception.
use crypto_back.Prelude.{◌≡◌, refl, String, some, leb}
use crypto_back.Json.{str, get}
use crypto_back.Errors.{
  Error, not_found_error, conflict_error, unauthorized_error, forbidden_error,
  external_service_error, circuit_open_error, http_exception_error, request_validation_error,
  status_error, other_error,
}
use crypto_back.Errors.Handlers.{
  handle, http_detail, validation_error_handler, http_exception_handler,
  unhandled_exception_handler,
}

-- Every exception gets a response with a text under "detail", and is logged as an error exactly if
-- the status is 500 or more.
pub handle-detail :
    (e : Error)
    → (detail : String) × (get "detail" (handle e).content ≡ some (str detail))
      × ((handle e).logged_error ≡ leb 500 (handle e).status_code)
unfolding handle http_detail validation_error_handler http_exception_handler
    unhandled_exception_handler
handle-detail (not_found_error d) = (d, refl, refl)
handle-detail (conflict_error d) = (d, refl, refl)
handle-detail (unauthorized_error d) = (d, refl, refl)
handle-detail (forbidden_error d) = (d, refl, refl)
handle-detail (external_service_error d) = (d, refl, refl)
handle-detail (circuit_open_error s) = (_, refl, refl)
handle-detail (http_exception_error c d) = (d, refl, refl)
handle-detail (request_validation_error es) = (_, refl, refl)
handle-detail (status_error c) = (_, refl, refl)
handle-detail (other_error c) = (_, refl, refl)
