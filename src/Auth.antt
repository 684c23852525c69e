-- ===== src/Auth.antt =====
-- app/services/auth_service.py: `class AuthService`.
pub mod Accounts
pub mod Rotation
pub mod Sessions
use crypto_back.Prelude.{
  ℕ, String, Bool, true, false, not, ◌||◌, Option, none, some, str_eq, if◌then◌else◌,
}
use crypto_back.Errors.{
  Error, conflict_error, unauthorized_error, other_error, key_error, value_error,
}
use crypto_back.Exec.{Result, ok, err, Exec, raise, pure, lift, modify, gets, ◌>>=◌, ◌>>◌}
use crypto_back.Metrics.{auth_attempts, token_refresh_total}
use crypto_back.World.{World, emit}
use crypto_back.Sql.{Table}
use crypto_back.Users.{User, get_by_email, get_by_id, create, update_refresh_token}
use crypto_back.Security.{
  Libraries, Claims, hash_password, verify_password, create_access_token, create_refresh_token,
  decode_token,
}

-- `TokenResponse` of app/schemas/user.py; its `token_type` is always "bearer".
pub record TokenResponse : Type 0 where
  pub access_token : String
  pub refresh_token : String

-- A statement of the session, on the database of the state.
abbrev pub on_db : {S D A : Type 0} → Exec D A → Exec (World S D) A
on_db m w = let (r, d) = m w.db in (r, record w { db = d })

-- `uuid.UUID(text)`
abbrev pub as_uuid : Libraries → String → Result ℕ
as_uuid l text = elim (l.uuid_of text) [ none ↦ err (other_error value_error) | some id ↦ ok id ]

-- `payload["sub"]`
abbrev pub subject_of : Claims → Result String
subject_of c = elim c.sub [ none ↦ err (other_error key_error) | some s ↦ ok s ]

abbrev pub has_type : String → Claims → Bool
has_type name c = elim c.token_type [ none ↦ false | some t ↦ str_eq t name ]

abbrev pub token_is : String → User → Bool
token_is token u = elim u.refresh_token [ none ↦ false | some t ↦ str_eq t token ]

module _ {S D : Type 0} (t : Table User D) (l : Libraries) where
  -- `email` is free unless a user has it.
  abbrev pub register_free : ℕ → ℕ → String → String → Option User → Exec (World S D) User
  register_free salt new_id email password (some u) w =
      (err (conflict_error "Email already registered"), w)
  register_free salt new_id email password none w =
      on_db (create t new_id w.now email (hash_password l salt password) "user") w

  -- `salt` and `new_id` are what bcrypt and `uuid4` draw.
  unfoldable pub register : ℕ → ℕ → String → String → Exec (World S D) User
  unfolding register_free
  register salt new_id email password w =
      (lift (get_by_email t email w.db) >>= register_free salt new_id email password) w

  -- Both tokens for `u`, of which the refresh token is stored.
  abbrev pub issue : User → Exec (World S D) TokenResponse
  issue u w =
      let access = create_access_token l w.now (l.uuid_text u.id) u.role in
      let refresh = create_refresh_token l w.now (l.uuid_text u.id) in
      (on_db (update_refresh_token t u.id (some refresh))
          >> pure (record { access_token = access; refresh_token = refresh }))
        w

  abbrev login_failed : Exec (World S D) TokenResponse
  login_failed =
      modify (emit (auth_attempts "failure"))
      >> raise (unauthorized_error "Invalid email or password")

  abbrev pub login_as : String → Option User → Exec (World S D) TokenResponse
  unfolding issue login_failed verify_password
  login_as password none = login_failed
  login_as password (some u) =
      if verify_password l password u.hashed_password
      then modify (emit (auth_attempts "success")) >> issue u
      else login_failed

  unfoldable pub login : String → String → Exec (World S D) TokenResponse
  unfolding login_as
  login email password w = (lift (get_by_email t email w.db) >>= login_as password) w

  abbrev revoked : Exec (World S D) TokenResponse
  revoked =
      modify (emit (token_refresh_total "revoked"))
      >> raise (unauthorized_error "Refresh token revoked or invalid")

  abbrev pub refresh_as : String → Option User → Exec (World S D) TokenResponse
  unfolding issue revoked
  refresh_as token none = revoked
  refresh_as token (some u) =
      if token_is token u
      then (do tokens ← issue u; modify (emit (token_refresh_total "success")); pure tokens)
      else revoked

  abbrev pub refresh_subject : String → Claims → Exec (World S D) TokenResponse
  unfolding refresh_as
  refresh_subject token payload = do
    sub ← lift (subject_of payload)
    user_id ← lift (as_uuid l sub)
    user ← λ w. (get_by_id t user_id w.db, w)
    refresh_as token user

  abbrev pub refresh_payload : String → Claims → Exec (World S D) TokenResponse
  unfolding refresh_subject
  refresh_payload token payload =
      if has_type "refresh" payload
      then refresh_subject token payload
      else modify (emit (token_refresh_total "invalid"))
        >> raise (unauthorized_error "Invalid token type")

  unfoldable pub refresh : String → Exec (World S D) TokenResponse
  unfolding refresh_payload
  refresh token w = (lift (decode_token l w.now token) >>= refresh_payload token) w
