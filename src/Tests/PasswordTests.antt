-- ===== src/Tests/PasswordTests.antt =====
-- Passwords of new users, over a table in memory and a bcrypt that reads 72 bytes.
use Prim.Native.Char.{code}
use Prim.Native.String
use text.Mathlib.TextPositions.{slice-append_left, eq_refl}
use mathlib.Core.Path.{subst}
use crypto_back.Prelude.{◌≡◌, refl, String, ◌&&◌, none, some, leb, ◌==◌, str_eq}
use crypto_back.Exec.{ok}
use crypto_back.Sql.Scalar.{scalar_one_or_none}
use crypto_back.Sql.Memory.{memory_table-TableLaws}
use crypto_back.Users.{user_clash, get_by_email, get_by_id, create}
use crypto_back.Security.{Libraries, create_access_token, create_refresh_token}
use crypto_back.Auth.{register}
use crypto_back.Passwords.Text.{is_digit_text, strip}
use crypto_back.Passwords.{
  Pydantic, UserResponse, password_error, password_not_trivial, post_register, post_login,
}
use crypto_back.Passwords.Bounds.{IsAcceptable, post_register-IsAcceptable}
use crypto_back.Passwords.Truncation.{IsTruncating, truncated_password_logs_in}
use crypto_back.Tests.Tokens.{ticks, codec}
use crypto_back.Tests.AuthTests.{users, nobody}

abbrev pydantic : Pydantic
pydantic = record {
  email_of = λ e. some e;
  email_message = "value is not a valid email address";
  short_message = "String should have at least 8 characters";
  long_message = "String should have at most 72 characters";
  value_error = λ m. String.◌++◌ "Value error, " m;
  digit_class = λ c. leb 48 (code c) && leb (code c) 57;
  space_class = λ c. code c == 32;
}

abbrev cut : String → String
cut s = String.slice s 0 72

abbrev bcrypt : Libraries
bcrypt = record codec {
  hash = λ salt p. cut p;
  verify = λ p h. str_eq (cut p) h;
  verify-hash = λ salt p. eq_refl (cut p);
}

cut-lem : (start y : String) → String.len start ≡ 72 → cut (String.◌++◌ start y) ≡ start
cut-lem start y long =
    subst (λ n. String.slice (String.◌++◌ start y) 0 n ≡ start) long (slice-append_left start y)

bcrypt-IsTruncating : IsTruncating bcrypt
bcrypt-IsTruncating salt start x y long =
    rw (cut-lem start y long) (rw (cut-lem start x long) (eq_refl start))

-- 36 characters of two bytes.
abbrev long : String
long = "éééééééééééééééééééééééééééééééééééé"

abbrev response : UserResponse
response = record { id = 1; email = "a@example.com"; role = "user"; created_at = 5000000 }

accepted : password_error pydantic (String.◌++◌ long "x") ≡ none
unfolding password_error password_not_trivial is_digit_text strip
accepted = refl

verdicts :
    (password_error pydantic "a      b" ≡ none)
    × (password_error pydantic "12345678" ≡ some "Value error, Password must not be all digits")
    × (password_error pydantic "  secret "
        ≡ some "Value error, Password must be at least 8 non-whitespace characters")
    × (password_error pydantic "short" ≡ some pydantic.short_message)
unfolding password_error password_not_trivial is_digit_text strip
verdicts = (refl, refl, refl, refl)

registered_lem :
    (post_register pydantic users bcrypt 7 1 "a@example.com" "a      b" nobody).0 ≡ ok response
unfolding post_register password_error password_not_trivial is_digit_text strip register
    get_by_email scalar_one_or_none create
registered_lem = refl

post_register-IsAcceptable_example : IsAcceptable pydantic "a      b"
post_register-IsAcceptable_example =
    post_register-IsAcceptable pydantic users bcrypt 7 1 "a@example.com" "a      b" nobody response
      registered_lem

truncated_password_logs_in_example :
    let (result, w') =
      post_register pydantic users bcrypt 7 1 "a@example.com" (String.◌++◌ long "x") nobody in
    (result ≡ ok response)
    × ((post_login pydantic users bcrypt "a@example.com" (String.◌++◌ long "another") w').0
        ≡ ok (record {
          access_token = create_access_token bcrypt 5000000 (ticks 1) "user";
          refresh_token = create_refresh_token bcrypt 5000000 (ticks 1);
        }))
unfolding get_by_email get_by_id scalar_one_or_none
truncated_password_logs_in_example =
    truncated_password_logs_in pydantic users (memory_table-TableLaws user_clash) bcrypt
      bcrypt-IsTruncating 7 1 "a@example.com" "a@example.com" long "x" nobody refl refl accepted
      refl refl "another"
