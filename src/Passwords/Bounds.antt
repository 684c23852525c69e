-- ===== src/Passwords/Bounds.antt =====
-- Which passwords are stored (app/schemas/user.py, app/api/v1/endpoints/auth.py).
use Prim.Native.Char.{len_utf8, len_utf8_def}
use Prim.Native.String
use Prim.Native.String.{[], ◌∷◌}
use crypto_back.Prelude.{ℕ, ◌*◌, ◌≤◌, ◌≡◌, String, false, none, arith}
use crypto_back.Exec.{ok}
use crypto_back.World.{World}
use crypto_back.Sql.{Table}
use crypto_back.Users.{User}
use crypto_back.Security.{Libraries}
use crypto_back.Passwords.Text.{is_digit_text, strip, Stripped, strip-lem}
use crypto_back.Passwords.{
  Pydantic, UserResponse, password_not_trivial, password_error, post_register,
}

len_utf8-le : (c : Prim.Native.Char.Char) → len_utf8 c ≤ 4
len_utf8-le c = rw (len_utf8_def c) (ground arith)

-- A character has at most four bytes.
len-le_count : (s : String) → String.len s ≤ 4 * String.count s
len-le_count [] = omega arith
len-le_count (c ∷ s) =
    omega (arith, String.len.cons c s, String.count.cons c s, len_utf8-le c, len-le_count s)

module _ (p : Pydantic) where
  -- What is known of a password that is stored.
  pub record IsAcceptable (v : String) : Type 0 where
    pub at_least : 8 ≤ String.count v
    pub at_most : String.count v ≤ 72
    pub bytes : String.len v ≤ 288
    pub not_digits : is_digit_text p.digit_class v ≡ false
    -- between the white space at its ends
    pub core : Stripped p.space_class v
    pub core_at_least : 8 ≤ String.count (strip p.space_class v)

  accepted : (v : String) → password_error p v ≡ none → IsAcceptable v
  unfolding password_error password_not_trivial
  accepted v h = record {
    at_least = ground arith;
    at_most = ground arith;
    bytes = ground (arith, len-le_count v);
    not_digits = ground arith;
    core = strip-lem p.space_class v;
    core_at_least = ground arith;
  }

  module _ {S D : Type 0} (t : Table User D) (l : Libraries) where
    -- A password with which a user is registered has from 8 to 72 characters, and so at most 288
    -- bytes; it is not all digits; and it has at least 8 characters from the first to the last that
    -- is no white space.
    pub post_register-IsAcceptable :
        (salt id : ℕ) (email password : String) (w : World S D) (response : UserResponse)
        → (post_register p t l salt id email password w).0 ≡ ok response
        → IsAcceptable password
    unfolding post_register
    post_register-IsAcceptable salt id email password w response done =
        accepted password (ground arith)
