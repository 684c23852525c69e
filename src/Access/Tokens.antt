-- ===== src/Access/Tokens.antt =====
-- Which tokens the two transports accept (app/api/v1/dependencies.py,
-- app/grpc_server/auth_interceptor.py).
use crypto_back.Prelude.{
  ℕ, ◌*◌, ◌<◌, ◌≡◌, refl, String, false, none, some, leb, str_eq, if◌then◌else◌, arith,
}
use crypto_back.Errors.{unauthorized_error}
use crypto_back.Exec.{ok, err}
use crypto_back.Metrics.{token_refresh_total}
use crypto_back.World.{World, emit}
use crypto_back.Sql.{Table}
use crypto_back.Users.{User, get_by_id}
use crypto_back.Security.{
  Libraries, access_claims, refresh_claims, create_access_token, create_refresh_token, decode_token,
}
use crypto_back.Auth.{refresh}
use crypto_back.Access.{
  continuation, abort_handler, get_current_user, extract_bearer, is_public, intercept_service,
}

-- A refresh token lives longer than an access token of the same time.
decoded_refresh :
    (l : Libraries) (now issued : ℕ) (subject role : String)
    → now < (access_claims l issued subject role).exp * 1000000
    → l.decode now (l.encode (refresh_claims l issued subject))
      ≡ some (refresh_claims l issued subject)
decoded_refresh l now issued subject role fresh =
    ground (arith, l.decode-encode now (refresh_claims l issued subject))

decoded_access :
    (l : Libraries) (now issued : ℕ) (subject role : String)
    → now < (access_claims l issued subject role).exp * 1000000
    → l.decode now (l.encode (access_claims l issued subject role))
      ≡ some (access_claims l issued subject role)
decoded_access l now issued subject role fresh =
    ground (arith, l.decode-encode now (access_claims l issued subject role))

module _ {S D : Type 0} (t : Table User D) (l : Libraries) (w : World S D) where
  -- For a method that is not public and metadata that carries the token, both transports accept the
  -- access token of a stored user, whose id has a text that is not empty, until it expires, and from
  -- then on both refuse it. REST gives the user as stored, whatever the role in the token.
  pub access_token_accepted :
      (u : User) (issued : ℕ) (role method authorization : String)
      → get_by_id t u.id w.db ≡ ok (some u)
      → str_eq (l.uuid_text u.id) "" ≡ false
      → is_public method ≡ false
      → extract_bearer authorization ≡ some (create_access_token l issued (l.uuid_text u.id) role)
      → let token = create_access_token l issued (l.uuid_text u.id) role in
        let expired = leb ((access_claims l issued (l.uuid_text u.id) role).exp * 1000000) w.now in
        (get_current_user t l token w
          ≡ (if expired then err (unauthorized_error "Invalid or expired token") else ok u, w))
        × (intercept_service l w.now method (some authorization)
            ≡ (if expired then abort_handler "Invalid or expired token" else continuation))
  unfolding get_current_user intercept_service decode_token create_access_token
  access_token_accepted u issued role method authorization found named private sent = ground (
    arith,
    found,
    sent,
    l.decode-encode w.now (access_claims l issued (l.uuid_text u.id) role),
    l.uuid_of-text u.id,
  )

  -- A token does for its own purpose only. While an access token of the same time has not expired, a
  -- refresh token is refused by REST, and by gRPC where the method is not public and the metadata
  -- carries it; and that access token is not exchanged for new tokens.
  pub token_purpose :
      (subject role method authorization : String) (issued : ℕ)
      → is_public method ≡ false
      → w.now < (access_claims l issued subject role).exp * 1000000
      → extract_bearer authorization ≡ some (create_refresh_token l issued subject)
      → (get_current_user t l (create_refresh_token l issued subject) w
          ≡ (err (unauthorized_error "Invalid token type"), w))
        × (intercept_service l w.now method (some authorization)
            ≡ abort_handler "Invalid token type")
        × (refresh t l (create_access_token l issued subject role) w ≡ (
          err (unauthorized_error "Invalid token type"),
          emit (token_refresh_total "invalid") w,
        ))
  unfolding get_current_user intercept_service decode_token create_access_token create_refresh_token
      refresh
  token_purpose subject role method authorization issued private fresh sent = (
    ground (arith, decoded_refresh l w.now issued subject role fresh),
    ground (arith, private, sent, decoded_refresh l w.now issued subject role fresh),
    rw (decoded_access l w.now issued subject role fresh) refl,
  )

  -- The access token of a user who is no longer stored, and whose id has a text that is not empty, is
  -- refused by REST until it expires, and accepted by gRPC where the metadata carries it.
  pub deleted_user_passes :
      (id issued : ℕ) (role method authorization : String)
      → get_by_id t id w.db ≡ ok none
      → str_eq (l.uuid_text id) "" ≡ false
      → w.now < (access_claims l issued (l.uuid_text id) role).exp * 1000000
      → extract_bearer authorization ≡ some (create_access_token l issued (l.uuid_text id) role)
      → (get_current_user t l (create_access_token l issued (l.uuid_text id) role) w
          ≡ (err (unauthorized_error "User not found"), w))
        × (intercept_service l w.now method (some authorization) ≡ continuation)
  unfolding get_current_user intercept_service decode_token create_access_token
  deleted_user_passes id issued role method authorization gone named fresh sent = ground (
    arith,
    gone,
    sent,
    l.decode-encode w.now (access_claims l issued (l.uuid_text id) role),
    l.uuid_of-text id,
  )
