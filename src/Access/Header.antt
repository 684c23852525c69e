-- ===== src/Access/Header.antt =====
-- `_extract_bearer` of app/grpc_server/auth_interceptor.py reads what clients send.
use Prim.Native.Char.{Char}
use Prim.Native.String
use text.Mathlib.TextLemmas.{cons-append, nil-append}
use crypto_back.Prelude.{
  ◌≡◌, refl, String, Bool, true, false, ◌&&◌, not, some, [], ◌∷◌, str_eq, arith,
}
use crypto_back.Access.{is_space, pieces, split, lower_eq, extract_bearer}

-- A text without spaces.
unfoldable pub no_space : String → Bool
no_space String.[] = true
no_space (String.◌∷◌ c s) = let rest = no_space s in not (is_space c) && rest

pub no_space-append :
    (a b : String) → no_space a ≡ true → no_space b ≡ true → no_space (String.◌++◌ a b) ≡ true
unfolding no_space
no_space-append String.[] b h k = rw nil-append k
no_space-append (String.◌∷◌ c s) b h k = rw cons-append (ground (arith, no_space-append s b))

pieces-no_space : (s : String) → no_space s ≡ true → pieces s ≡ (s, [])
unfolding pieces no_space
pieces-no_space String.[] h = refl
pieces-no_space (String.◌∷◌ c s) h = ground (arith, pieces-no_space s)

-- A word before a space is the first of the words.
pieces_word :
    (a : String) (c : Char) (s : String)
    → no_space a ≡ true
    → is_space c ≡ true
    → pieces (String.◌++◌ a (String.◌∷◌ c s)) ≡ (a, split s)
unfolding pieces no_space split
pieces_word String.[] c s h k = rw nil-append (rw k refl)
pieces_word (String.◌∷◌ b a) c s h k = rw cons-append (ground (arith, pieces_word a c s))

split-no_space :
    (token : String) → no_space token ≡ true → str_eq token "" ≡ false → split token ≡ token ∷ []
unfolding split
split-no_space token h ne = rw (pieces-no_space token h) (rw ne refl)

-- `Bearer <token>`
abbrev pub header : String → String
header token = String.◌++◌ "Bearer" (String.◌∷◌ " " token)

split-header :
    (token : String)
    → no_space token ≡ true
    → str_eq token "" ≡ false
    → split (header token) ≡ "Bearer" ∷ token ∷ []
unfolding split no_space
split-header token h ne =
    rw (pieces_word "Bearer" " " token refl refl) (rw (split-no_space token h ne) refl)

-- The header of a token that is not empty and has no spaces gives that token.
pub extract_bearer-header :
    (token : String)
    → no_space token ≡ true
    → str_eq token "" ≡ false
    → extract_bearer (header token) ≡ some token
unfolding extract_bearer lower_eq
extract_bearer-header token h ne = rw (split-header token h ne) refl
