-- ===== src/Passwords.antt =====
-- `UserRegisterRequest`, `UserLoginRequest` and `UserResponse` of app/schemas/user.py, and the
-- handlers `register` and `login` of app/api/v1/endpoints/auth.py on the session that they are given.
-- What pydantic makes of an address and its messages are a parameter, and so are the classes of
-- characters in Python's Unicode tables. The length of a password is in characters.
pub mod Text
pub mod Bounds
pub mod Truncation
use Prim.Native.Char.{Char}
use Prim.Native.String
use crypto_back.Prelude.{ℕ, String, Bool, Option, none, some, List, [], ◌∷◌, if◌then◌else◌, ltb}
use crypto_back.Errors.{request_validation_error}
use crypto_back.Exec.{Exec, raise, pure, ◌>>=◌}
use crypto_back.World.{World}
use crypto_back.Sql.{Table}
use crypto_back.Users.{User}
use crypto_back.Security.{Libraries}
use crypto_back.Auth.{TokenResponse}
use crypto_back.Auth
use crypto_back.Passwords.Text.{is_digit_text, strip}

pub record Pydantic : Type 0 where
  -- `EmailStr`: the address as it is passed on, if the text is one
  pub email_of : String → Option String
  pub email_message : String
  pub short_message : String
  pub long_message : String
  -- the message for a `ValueError` of a validator
  pub value_error : String → String
  -- `c.isdigit()` and `c.isspace()`
  pub digit_class : Char → Bool
  pub space_class : Char → Bool

abbrev pub min_length : ℕ
min_length = 8

abbrev pub max_length : ℕ
max_length = 72

pub record UserResponse : Type 0 where
  pub id : ℕ
  pub email : String
  pub role : String
  pub created_at : ℕ

abbrev pub user_response : User → UserResponse
user_response u = record { id = u.id; email = u.email; role = u.role; created_at = u.created_at }

module _ (p : Pydantic) where
  -- The message of the `ValueError`, if one is raised.
  unfoldable pub password_not_trivial : String → Option String
  password_not_trivial v =
      if is_digit_text p.digit_class v
      then some "Password must not be all digits"
      else if ltb (String.count (strip p.space_class v)) 8
      then some "Password must be at least 8 non-whitespace characters"
      else none

  abbrev from_validator : Option String → Option String
  from_validator none = none
  from_validator (some m) = some (p.value_error m)

  -- The field `password`, whose validator runs after the checks of its length.
  unfoldable pub password_error : String → Option String
  unfolding password_not_trivial
  password_error v =
      if ltb (String.count v) min_length
      then some p.short_message
      else if ltb max_length (String.count v)
      then some p.long_message
      else from_validator (password_not_trivial v)

  abbrev at : String → String → List String × String
  at name message = ("body" ∷ name ∷ [], message)

  module _ {S D : Type 0} (t : Table User D) (l : Libraries) where
    -- What the handler is called with, or what the request is refused for.
    abbrev register_body :
        ℕ → ℕ → String → Option String → Option String → Exec (World S D) UserResponse
    register_body salt new_id password (some email) none = do
      user ← Auth.register t l salt new_id email password
      pure (user_response user)
    register_body salt new_id password (some email) (some m) =
        raise (request_validation_error (at "password" m ∷ []))
    register_body salt new_id password none none =
        raise (request_validation_error (at "email" p.email_message ∷ []))
    register_body salt new_id password none (some m) =
        raise (request_validation_error (at "email" p.email_message ∷ at "password" m ∷ []))

    -- `POST /auth/register`
    unfoldable pub post_register : ℕ → ℕ → String → String → Exec (World S D) UserResponse
    unfolding password_error
    post_register salt new_id email password =
        register_body salt new_id password (p.email_of email) (password_error password)

    -- `POST /auth/login`, which takes any password.
    unfoldable pub post_login : String → String → Exec (World S D) TokenResponse
    post_login email password = elim (p.email_of email) [
      | none ↦ raise (request_validation_error (at "email" p.email_message ∷ []))
      | some address ↦ Auth.login t l address password
    ]

    -- `POST /auth/refresh`
    unfoldable pub post_refresh : String → Exec (World S D) TokenResponse
    post_refresh refresh_token = Auth.refresh t l refresh_token
