-- ===== src/Tests/AccessTests.antt =====
-- Access over both transports, with the codec of Tests/Tokens.antt.
use crypto_back.Prelude.{◌≡◌, refl, String, false, none, some, [], ◌∷◌, str_eq, arith}
use crypto_back.Errors.{unauthorized_error}
use crypto_back.Exec.{ok, err}
use crypto_back.Metrics.{token_refresh_total}
use crypto_back.World.{emit}
use crypto_back.Sql.Scalar.{scalar_one_or_none}
use crypto_back.Users.{get_by_id}
use crypto_back.Security.{create_access_token, create_refresh_token}
use crypto_back.Auth.{refresh}
use crypto_back.Access.{
  continuation, abort_handler, get_current_user, extract_bearer, is_public, intercept_service,
}
use crypto_back.Access.Header.{header, no_space, extract_bearer-header}
use crypto_back.Access.Tokens.{access_token_accepted, token_purpose, deleted_user_passes}
use crypto_back.Tests.Tokens.{
  ticks, codec, access_token-no_space, refresh_token-no_space, access_token_not_empty,
  refresh_token_not_empty, ticks-ne-empty,
}
use crypto_back.Tests.AuthTests.{alice, users, nobody, W}
use crypto_back.Tests.Samples.{world}

abbrev method : String
method = "/crypto.insight.v1.InsightService/GetInsight"

private : is_public method ≡ false
unfolding is_public
private = refl

abbrev access_token : String
access_token = create_access_token codec 5000000 (ticks 1) "user"

access_sent : extract_bearer (header access_token) ≡ some access_token
access_sent =
    extract_bearer-header access_token (access_token-no_space 5000000 1)
      (access_token_not_empty 5000000 (ticks 1))

abbrev refresh_token : String
refresh_token = create_refresh_token codec 5000000 (ticks 1)

refresh_sent : extract_bearer (header refresh_token) ≡ some refresh_token
refresh_sent =
    extract_bearer-header refresh_token (refresh_token-no_space 5000000 1)
      (refresh_token_not_empty 5000000 (ticks 1))

extract_bearer-header_test : extract_bearer (header "a.b.c") ≡ some "a.b.c"
unfolding no_space
extract_bearer-header_test = extract_bearer-header "a.b.c" refl refl

abbrev one_user : W
one_user = world [] (alice 5000000 ∷ [])

alice-found : get_by_id users 1 one_user.db ≡ ok (some (alice 5000000))
unfolding get_by_id scalar_one_or_none
alice-found = refl

nobody-found : get_by_id users 1 nobody.db ≡ ok none
unfolding get_by_id scalar_one_or_none
nobody-found = refl

named : str_eq (ticks 1) "" ≡ false
named = ticks-ne-empty 0

access_token_accepted_example :
    (get_current_user users codec access_token one_user ≡ (ok (alice 5000000), one_user))
    × (intercept_service codec 5000000 method (some (header access_token)) ≡ continuation)
access_token_accepted_example =
    access_token_accepted users codec one_user (alice 5000000) 5000000 "user" method
      (header access_token) alice-found named private access_sent

token_purpose_example :
    (get_current_user users codec refresh_token one_user
      ≡ (err (unauthorized_error "Invalid token type"), one_user))
    × (intercept_service codec 5000000 method (some (header refresh_token))
        ≡ abort_handler "Invalid token type")
    × (refresh users codec access_token one_user ≡ (
      err (unauthorized_error "Invalid token type"),
      emit (token_refresh_total "invalid") one_user,
    ))
token_purpose_example =
    token_purpose users codec one_user (ticks 1) "user" method (header refresh_token) 5000000
      private (omega arith) refresh_sent

deleted_user_passes_example :
    (get_current_user users codec access_token nobody
      ≡ (err (unauthorized_error "User not found"), nobody))
    × (intercept_service codec 5000000 method (some (header access_token)) ≡ continuation)
deleted_user_passes_example =
    deleted_user_passes users codec nobody 1 5000000 "user" method (header access_token)
      nobody-found named (omega arith) access_sent
