-- ===== src/Tests/Tokens.antt =====
-- A concrete codec in the place of PyJWT, passlib and UUIDs, which shows that the laws of
-- `Security.Libraries` can hold.
use Prim.Native.Char.{Char, code}
use Prim.Native.String
use Prim.Native.String.count
use text.Mathlib.TextLemmas.{cons-append, nil-append}
use crypto_back.Prelude.{
  ℕ, zero, suc, ◌*◌, ◌≡◌, ◌≢◌, ◌∙◌, ap, refl, true, false, eq_iff, arith, String, Option, none,
  some, ◌==◌, str_eq, eq_refl, leb, if◌then◌else◌,
}
use crypto_back.Security.{
  Claims, Libraries, access_claims, refresh_claims, create_access_token, create_refresh_token,
}
use crypto_back.Access.Header.{no_space, no_space-append}

pub ticks : ℕ → String
ticks zero = ""
ticks (suc n) = String.◌∷◌ "|" (ticks n)

pub count-ticks : (n : ℕ) → String.count (ticks n) ≡ n
unfolding ticks
count-ticks zero = refl
count-ticks (suc n) = count.cons "|" (ticks n) ∙ ap suc (count-ticks n)

-- The leading ticks, and what stands after the character that ends them.
read_ticks : String → ℕ × String
read_ticks String.[] = (0, "")
read_ticks (String.◌∷◌ c s) =
    let (n, rest) = read_ticks s in if code c == b'|' then (suc n, rest) else (0, s)

read_ticks-ticks :
    (n : ℕ) (rest : String) → read_ticks (String.◌++◌ (ticks n) (String.◌∷◌ "." rest)) ≡ (n, rest)
unfolding read_ticks ticks
read_ticks-ticks zero rest = rw nil-append
read_ticks-ticks (suc n) rest = rw cons-append (rw (read_ticks-ticks n rest))

split_at : ℕ → String → String × String
split_at zero s = ("", s)
split_at (suc n) String.[] = ("", "")
split_at (suc n) (String.◌∷◌ c s) = let (a, b) = split_at n s in (String.◌∷◌ c a, b)

split_at-append : (s rest : String) → split_at (String.count s) (String.◌++◌ s rest) ≡ (s, rest)
unfolding split_at
split_at-append String.[] rest = rw nil-append
split_at-append (String.◌∷◌ c s) rest = simp (cons-append, count.cons, split_at-append s rest)

-- A text behind its length.
abbrev put_text : String → String → String
put_text s rest = String.◌++◌ (ticks (String.count s)) (String.◌∷◌ "." (String.◌++◌ s rest))

abbrev get_text : String → String × String
get_text s = let (n, rest) = read_ticks s in split_at n rest

get_text-put_text : (s rest : String) → get_text (put_text s rest) ≡ (s, rest)
get_text-put_text s rest =
    rw (read_ticks-ticks (String.count s) (String.◌++◌ s rest)) (split_at-append s rest)

put_option : Option String → String → String
put_option none rest = String.◌∷◌ "n" rest
put_option (some s) rest = String.◌∷◌ "s" (put_text s rest)

get_option : String → Option String × String
get_option String.[] = (none, "")
get_option (String.◌∷◌ c s) =
    let (t, rest) = get_text s in if code c == b's' then (some t, rest) else (none, s)

get_option-put_option :
    (o : Option String) (rest : String) → get_option (put_option o rest) ≡ (o, rest)
unfolding get_option put_option
get_option-put_option none rest = refl
get_option-put_option (some s) rest = rw (get_text-put_text s rest)

pub write_claims : Claims → String
write_claims c =
    put_option c.sub
      (put_option c.role (put_option c.token_type (String.◌++◌ (ticks c.exp) (String.◌∷◌ "." ""))))

pub read_claims : String → Claims
read_claims s =
    let (sub, s1) = get_option s in
    let (role, s2) = get_option s1 in
    let (kind, s3) = get_option s2 in
    record { sub = sub; role = role; exp = (read_ticks s3).0; token_type = kind }

pub read_claims-write_claims : (c : Claims) → read_claims (write_claims c) ≡ c
unfolding read_claims write_claims
read_claims-write_claims c =
    let end = String.◌++◌ (ticks c.exp) (String.◌∷◌ "." "") in
    rw (
      get_option-put_option c.sub (put_option c.role (put_option c.token_type end)),
      get_option-put_option c.role (put_option c.token_type end),
      get_option-put_option c.token_type end,
      read_ticks-ticks c.exp "",
    )

abbrev pub decode_at : ℕ → Claims → Option Claims
decode_at now c = if leb (c.exp * 1000000) now then none else some c

pub uuid_of-ticks : (id : ℕ) → some (String.count (ticks id)) ≡ some id
uuid_of-ticks id = ap some (count-ticks id)

abbrev pub codec : Libraries
codec = record {
  encode = write_claims;
  decode = λ now s. decode_at now (read_claims s);
  decode-encode = λ now c. ap (decode_at now) (read_claims-write_claims c);
  hash = λ salt p. p;
  verify = str_eq;
  verify-hash = λ salt p. eq_refl p;
  uuid_text = ticks;
  uuid_of = λ s. some (String.count s);
  uuid_of-text = uuid_of-ticks;
}

-- The tokens of this codec have no spaces, where the texts in them have none.
ticks-no_space : (n : ℕ) → no_space (ticks n) ≡ true
unfolding ticks no_space
ticks-no_space zero = refl
ticks-no_space (suc n) = ground (arith, ticks-no_space n)

put_text-no_space :
    (s rest : String) → no_space s ≡ true → no_space rest ≡ true → no_space (put_text s rest) ≡ true
unfolding no_space
put_text-no_space s rest h k =
    no_space-append (ticks (String.count s)) (String.◌∷◌ "." (String.◌++◌ s rest))
      (ticks-no_space (String.count s)) (ground (arith, no_space-append s rest h k))

put_some-no_space :
    (s rest : String)
    → no_space s ≡ true
    → no_space rest ≡ true
    → no_space (put_option (some s) rest) ≡ true
unfolding no_space put_option
put_some-no_space s rest h k = ground (arith, put_text-no_space s rest h k)

put_none-no_space : (rest : String) → no_space rest ≡ true → no_space (put_option none rest) ≡ true
unfolding no_space put_option
put_none-no_space rest k = ground (arith, k)

put_kind-no_space :
    (kind : String) (exp : ℕ)
    → no_space kind ≡ true
    → no_space (put_option (some kind) (String.◌++◌ (ticks exp) (String.◌∷◌ "." ""))) ≡ true
unfolding no_space
put_kind-no_space kind exp h =
    put_some-no_space kind (String.◌++◌ (ticks exp) (String.◌∷◌ "." "")) h
      (no_space-append (ticks exp) (String.◌∷◌ "." "") (ticks-no_space exp) refl)

pub access_token-no_space :
    (now id : ℕ) → no_space (create_access_token codec now (ticks id) "user") ≡ true
unfolding create_access_token write_claims no_space
access_token-no_space now id =
    let c = access_claims codec now (ticks id) "user" in
    let end = put_option (some "access") (String.◌++◌ (ticks c.exp) (String.◌∷◌ "." "")) in
    put_some-no_space (ticks id) (put_option (some "user") end) (ticks-no_space id)
      (put_some-no_space "user" end refl (put_kind-no_space "access" c.exp refl))

pub refresh_token-no_space :
    (now id : ℕ) → no_space (create_refresh_token codec now (ticks id)) ≡ true
unfolding create_refresh_token write_claims no_space
refresh_token-no_space now id =
    let c = refresh_claims codec now (ticks id) in
    let end = put_option (some "refresh") (String.◌++◌ (ticks c.exp) (String.◌∷◌ "." "")) in
    put_some-no_space (ticks id) (put_option none end) (ticks-no_space id)
      (put_none-no_space end (put_kind-no_space "refresh" c.exp refl))

cons-apart : (c : Char) (s : String) → String.◌∷◌ c s ≢ ""
cons-apart c s e = absurd (omega (arith, count.cons c s, ap String.count e))

cons-ne-empty : (c : Char) (s : String) → str_eq (String.◌∷◌ c s) "" ≡ false
cons-ne-empty c s = ground (arith, eq_iff (String.◌∷◌ c s) "", cons-apart c s)

pub access_token_not_empty :
    (now : ℕ) (subject : String) → str_eq (create_access_token codec now subject "user") "" ≡ false
unfolding create_access_token write_claims put_option
access_token_not_empty now subject =
    let c = access_claims codec now subject "user" in
    cons-ne-empty "s" (
      put_text subject (
        put_option (some "user")
          (put_option (some "access") (String.◌++◌ (ticks c.exp) (String.◌∷◌ "." "")))))

pub refresh_token_not_empty :
    (now : ℕ) (subject : String) → str_eq (create_refresh_token codec now subject) "" ≡ false
unfolding create_refresh_token write_claims put_option
refresh_token_not_empty now subject =
    let c = refresh_claims codec now subject in
    cons-ne-empty "s" (
      put_text subject (
        put_option none
          (put_option (some "refresh") (String.◌++◌ (ticks c.exp) (String.◌∷◌ "." "")))))

pub ticks-ne-empty : (n : ℕ) → str_eq (ticks (suc n)) "" ≡ false
unfolding ticks
ticks-ne-empty n = cons-ne-empty "|" (ticks n)
