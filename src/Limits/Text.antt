-- ===== src/Limits/Text.antt =====
-- `str` of a number, `int` of a text of digits and `split` at a slash, as app/core/rate_limit.py
-- calls them.
use Prim.Native.Char.{Char, code}
use Prim.Native.String
use Prim.Native.String.{String, [], ◌∷◌}
use mathlib.Core.List
use text.Mathlib.TextLemmas.{nil-append, cons-append}
use crypto_back.Prelude.{
  ℕ, zero, suc, ◌+◌, ◌-◌, ◌*◌, ◌/◌, ◌%◌, ◌<◌, ◌≡◌, refl, Bool, true, false, ◌&&◌, Option, none,
  some, if◌then◌else◌, ltb, leb, ◌==◌, arith,
}

abbrev pub digit : ℕ → Char
digit n =
    if n == 0
    then "0"
    else if n == 1
    then "1"
    else if n == 2
    then "2"
    else if n == 3
    then "3"
    else if n == 4
    then "4"
    else if n == 5
    then "5"
    else if n == 6
    then "6"
    else if n == 7
    then "7"
    else if n == 8
    then "8"
    else "9"

abbrev is_digit : Char → Bool
is_digit c = leb 48 (code c) && leb (code c) 57

abbrev is_slash : Char → Bool
is_slash c = code c == 47

-- The digits of `n`, in front of those that are there.
unfoldable pub digits : (fuel n : ℕ) → String → String
digits zero n rest = rest
digits (suc fuel) n rest =
    let more = digits fuel (n / 10) (digit (n % 10) ∷ rest) in
    if ltb n 10 then digit n ∷ rest else more

unfoldable pub str : ℕ → String
str n = digits (suc n) n ""

unfoldable pub int_from : ℕ → String → Option ℕ
int_from n [] = some n
int_from n (c ∷ s) =
    let rest = int_from (n * 10 + (code c - 48)) s in if is_digit c then rest else none

abbrev pub is_empty : String → Bool
is_empty [] = true
is_empty (c ∷ s) = false

unfoldable pub int : String → Option ℕ
int s = if is_empty s then none else int_from 0 s

abbrev in_front : Char → List.List String → List.List String
in_front c List.[] = List.[]
in_front c (List.◌∷◌ word words) = List.◌∷◌ (c ∷ word) words

-- `s.split("/")`
unfoldable pub split : String → List.List String
split [] = List.◌∷◌ "" List.[]
split (c ∷ s) = let rest = split s in if is_slash c then List.◌∷◌ "" rest else in_front c rest

abbrev pub no_slash : String → Bool
no_slash [] = true
no_slash (c ∷ s) = if is_slash c then false else no_slash s

-- A digit stands for its number, and is no slash.
digit_lem :
    (n : ℕ)
    → n < 10
    → (code (digit n) - 48 ≡ n) × (is_digit (digit n) ≡ true) × (is_slash (digit n) ≡ false)
digit_lem zero h = (refl, refl, refl)
digit_lem (suc zero) h = (refl, refl, refl)
digit_lem (suc (suc zero)) h = (refl, refl, refl)
digit_lem (suc (suc (suc zero))) h = (refl, refl, refl)
digit_lem (suc (suc (suc (suc zero)))) h = (refl, refl, refl)
digit_lem (suc (suc (suc (suc (suc zero))))) h = (refl, refl, refl)
digit_lem (suc (suc (suc (suc (suc (suc zero)))))) h = (refl, refl, refl)
digit_lem (suc (suc (suc (suc (suc (suc (suc zero))))))) h = (refl, refl, refl)
digit_lem (suc (suc (suc (suc (suc (suc (suc (suc zero)))))))) h = (refl, refl, refl)
digit_lem (suc (suc (suc (suc (suc (suc (suc (suc (suc zero))))))))) h = (refl, refl, refl)
digit_lem (suc (suc (suc (suc (suc (suc (suc (suc (suc (suc n)))))))))) h = ground arith

int_from-cons :
    (n d : ℕ) (rest : String) → d < 10 → int_from n (digit d ∷ rest) ≡ int_from (n * 10 + d) rest
unfolding int_from
int_from-cons n d rest small =
    let (number, is_one, _) = digit_lem d small in rw (number, is_one) refl

int_from-digits :
    (fuel n : ℕ) (rest : String) → n < fuel → int_from 0 (digits fuel n rest) ≡ int_from n rest
unfolding digits
int_from-digits zero n rest h = ground arith
int_from-digits (suc fuel) n rest h = ground (
  arith,
  int_from-cons 0 n rest,
  int_from-digits fuel (n / 10) (digit (n % 10) ∷ rest),
  int_from-cons (n / 10) (n % 10) rest,
)

is_empty-digits : (fuel n : ℕ) (rest : String) → n < fuel → is_empty (digits fuel n rest) ≡ false
unfolding digits
is_empty-digits zero n rest h = ground arith
is_empty-digits (suc fuel) n rest h =
    ground (arith, is_empty-digits fuel (n / 10) (digit (n % 10) ∷ rest))

pub int-str : (n : ℕ) → int (str n) ≡ some n
unfolding int str int_from
int-str n =
    rw (is_empty-digits (suc n) n "" (omega arith)) (int_from-digits (suc n) n "" (omega arith))

no_slash-cons : (n : ℕ) (rest : String) → n < 10 → no_slash (digit n ∷ rest) ≡ no_slash rest
no_slash-cons n rest h = let (_, _, other) = digit_lem n h in rw (other) refl

no_slash-digits :
    (fuel n : ℕ) (rest : String) → n < fuel → no_slash (digits fuel n rest) ≡ no_slash rest
unfolding digits
no_slash-digits zero n rest h = ground arith
no_slash-digits (suc fuel) n rest h = ground (
  arith,
  no_slash-cons n rest,
  no_slash-cons (n % 10) rest,
  no_slash-digits fuel (n / 10) (digit (n % 10) ∷ rest),
)

pub no_slash-str : (n : ℕ) → no_slash (str n) ≡ true
unfolding str
no_slash-str n = no_slash-digits (suc n) n "" (omega arith)

split-word : (s : String) → no_slash s ≡ true → split s ≡ List.◌∷◌ s List.[]
unfolding split
split-word [] h = refl
split-word (c ∷ s) h = ground (arith, split-word s)

-- A text of two words with a slash between them.
pub split_joined :
    (s t : String)
    → no_slash s ≡ true
    → no_slash t ≡ true
    → split (String.◌++◌ s ("/" ∷ t)) ≡ List.◌∷◌ s (List.◌∷◌ t List.[])
unfolding split
split_joined [] t h k = rw (nil-append ("/" ∷ t), split-word t k) refl
split_joined (c ∷ s) t h k = rw (cons-append c s ("/" ∷ t)) ground (arith, split_joined s t)
