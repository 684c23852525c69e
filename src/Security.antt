-- ===== src/Security.antt =====
-- app/core/security.py, and the settings of app/config.py that it reads. PyJWT, passlib, the text of
-- a UUID and `hmac` are parameters. A time is in microseconds since the epoch.
use crypto_back.Prelude.{
  ℕ, ◌+◌, ◌*◌, ◌/◌, ◌≡◌, String, Bool, true, Option, none, some, leb, str_eq, if◌then◌else◌,
}
use crypto_back.Errors.{unauthorized_error, forbidden_error}
use crypto_back.Exec.{Result, ok, err}

-- The payload of a token; `exp` is in whole seconds, as PyJWT writes it.
pub record Claims : Type 0 where
  pub sub : Option String
  pub role : Option String
  pub exp : ℕ
  pub token_type : Option String

-- `jwt.encode` and `jwt.decode` with the secret key and the algorithm of the settings. A decoded token
-- was signed with that key, and has not expired at the time given.
pub record Libraries : Type 0 where
  pub encode : Claims → String
  pub decode : ℕ → String → Option Claims
  pub decode-encode :
      (now : ℕ) (c : Claims)
      → decode now (encode c) ≡ (if leb (c.exp * 1000000) now then none else some c)
  -- `pwd_context.hash` with its random salt, and `pwd_context.verify`, of passwords without a NUL
  -- character, which passlib refuses
  pub hash : ℕ → String → String
  pub verify : String → String → Bool
  pub verify-hash : (salt : ℕ) (p : String) → verify p (hash salt p) ≡ true
  -- `str(id)` and `uuid.UUID(text)`
  pub uuid_text : ℕ → String
  pub uuid_of : String → Option ℕ
  pub uuid_of-text : (id : ℕ) → uuid_of (uuid_text id) ≡ some id

abbrev pub access_token_expire_minutes : ℕ
access_token_expire_minutes = 15

abbrev pub refresh_token_expire_days : ℕ
refresh_token_expire_days = 7

module _ (l : Libraries) where
  unfoldable pub hash_password : ℕ → String → String
  hash_password salt password = l.hash salt password

  unfoldable pub verify_password : String → String → Bool
  verify_password plain hashed = l.verify plain hashed

  abbrev pub access_claims : ℕ → String → String → Claims
  access_claims now subject role = record {
    sub = some subject;
    role = some role;
    exp = (now + access_token_expire_minutes * 60 * 1000000) / 1000000;
    token_type = some "access";
  }

  unfoldable pub create_access_token : ℕ → String → String → String
  create_access_token now subject role = l.encode (access_claims now subject role)

  abbrev pub refresh_claims : ℕ → String → Claims
  refresh_claims now subject = record {
    sub = some subject;
    role = none;
    exp = (now + refresh_token_expire_days * 24 * 60 * 60 * 1000000) / 1000000;
    token_type = some "refresh";
  }

  unfoldable pub create_refresh_token : ℕ → String → String
  create_refresh_token now subject = l.encode (refresh_claims now subject)

  abbrev or_unauthorized : Option Claims → Result Claims
  or_unauthorized none = err (unauthorized_error "Invalid or expired token")
  or_unauthorized (some c) = ok c

  unfoldable pub decode_token : ℕ → String → Result Claims
  unfolding or_unauthorized
  decode_token now token = or_unauthorized (l.decode now token)

-- `verify_internal_api_key`, against `settings.internal_api_key`
unfoldable pub verify_internal_api_key : String → String → Result (Unit {0})
verify_internal_api_key internal_api_key api_key =
    if str_eq api_key internal_api_key
    then ok tt
    else err (forbidden_error "Invalid internal API key")
