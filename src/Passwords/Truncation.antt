-- ===== src/Passwords/Truncation.antt =====
-- Passwords that bcrypt does not tell apart (app/schemas/user.py, app/core/security.py).
use Prim.Native.String
use crypto_back.Prelude.{ℕ, ◌≡◌, ◌∙◌, refl, String, true, none, some, arith}
use crypto_back.Exec.{ok}
use crypto_back.World.{World}
use crypto_back.Sql.{Table, TableLaws}
use crypto_back.Users.{User, user_clash, get_by_email, get_by_id}
use crypto_back.Security.{
  Libraries, hash_password, verify_password, create_access_token, create_refresh_token,
}
use crypto_back.Auth.{register}
use crypto_back.Auth.Accounts.{registered, register_free_lem, login_ok}
use crypto_back.Passwords.{Pydantic, user_response, password_error, post_register, post_login}

-- bcrypt reads the first 72 bytes of a password.
abbrev pub IsTruncating : Libraries → Type 0
IsTruncating l =
    (salt : ℕ) (start x y : String)
    → String.len start ≡ 72
    → l.verify (String.◌++◌ start y) (l.hash salt (String.◌++◌ start x)) ≡ true

module _ {S D : Type 0} (p : Pydantic) (t : Table User D) (laws : TableLaws t user_clash)
    (l : Libraries) (truncating : IsTruncating l) (salt id : ℕ) (email address start x : String)
    (w : World S D) (long : String.len start ≡ 72) (is_address : p.email_of email ≡ some address)
    (accepted : password_error p (String.◌++◌ start x) ≡ none)
    (free : get_by_email t address w.db ≡ ok none) (new : get_by_id t id w.db ≡ ok none) where
  abbrev password : String
  password = String.◌++◌ start x

  abbrev user : User
  user = registered t laws l salt id address password w free new

  registers :
      let (result, w') = post_register p t l salt id email password w in
      let (stored, w'') = register t l salt id address password w in
      (result ≡ ok (user_response user)) × (w' ≡ w'')
  unfolding post_register
  registers =
      let (stored, e, i, n) = register_free_lem t laws l salt id address password w free new in
      ground (arith, is_address, accepted, stored)

  verifies : (y : String) → verify_password l (String.◌++◌ start y) user.hashed_password ≡ true
  unfolding verify_password hash_password
  verifies y = truncating salt start x y long

  logs_in :
      (y : String) (v : World S D)
      → get_by_email t address v.db ≡ ok (some user)
      → get_by_id t id v.db ≡ ok (some user)
      → (post_login p t l email (String.◌++◌ start y) v).0
        ≡ ok (record {
          access_token = create_access_token l v.now (l.uuid_text id) "user";
          refresh_token = create_refresh_token l v.now (l.uuid_text id);
        })
  unfolding post_login
  logs_in y v e i =
      let logged =
        login_ok t laws l salt id address (String.◌++◌ start y) w free new v user e i
          (verifies y) in
      ground (arith, is_address, logged)

  -- Registering a free address under a new id with an accepted password, whose first 72 bytes are
  -- whole characters, stores the user; and a login with any text that begins with the same 72 bytes
  -- returns tokens for that user. What is relied on: bcrypt reads only those bytes.
  pub truncated_password_logs_in :
      (y : String)
      → let (result, w') = post_register p t l salt id email password w in
        (result ≡ ok (user_response (registered t laws l salt id address password w free new)))
        × ((post_login p t l email (String.◌++◌ start y) w').0
            ≡ ok (record {
              access_token = create_access_token l w.now (l.uuid_text id) "user";
              refresh_token = create_refresh_token l w.now (l.uuid_text id);
            }))
  truncated_password_logs_in y =
      let (stored, e, i, n) = register_free_lem t laws l salt id address password w free new in
      let (result, ends) = registers in
      let w' = (register t l salt id address password w).1 in
      (result, rw ends (logs_in y w' e i ∙ rw n refl))
