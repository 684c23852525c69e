-- ===== src/Passwords/Text.antt =====
-- `str.isdigit` and `str.strip`, as app/schemas/user.py calls them, with the classes of characters
-- in Python's Unicode tables as parameters.
use Prim.Native.Char.{Char}
use Prim.Native.String
use Prim.Native.String.{String, [], ◌∷◌}
use text.Mathlib.TextLemmas.{nil-append, cons-append}
use crypto_back.Prelude.{
  ◌≡◌, ◌∙◌, refl, sym, ap, Bool, true, false, ◌&&◌, if◌then◌else◌, Bool-cases, inl, inr, arith,
}

abbrev is_empty : String → Bool
is_empty [] = true
is_empty (c ∷ s) = false

module _ (in_class : Char → Bool) where
  abbrev pub all_in : String → Bool
  all_in [] = true
  all_in (c ∷ s) = in_class c && all_in s

  -- `s.isdigit()`, for the class of the digits; it is false of the empty text.
  unfoldable pub is_digit_text : String → Bool
  is_digit_text [] = false
  is_digit_text (c ∷ s) = in_class c && all_in s

  abbrev lstrip : String → String
  lstrip [] = []
  lstrip (c ∷ s) = if in_class c then lstrip s else c ∷ s

  abbrev rstrip : String → String
  rstrip [] = []
  rstrip (c ∷ s) = let rest = rstrip s in if in_class c && is_empty rest then [] else c ∷ rest

  -- `s.strip()`, for the class of the white space.
  unfoldable pub strip : String → String
  strip s = rstrip (lstrip s)

  abbrev pub first_in : String → Bool
  first_in [] = false
  first_in (c ∷ s) = in_class c

  abbrev pub last_in : String → Bool
  last_in [] = false
  last_in (c ∷ s) = let rest = last_in s in if is_empty s then in_class c else rest

  lstrip-lem :
      (s : String)
      → (left : String) × (s ≡ String.◌++◌ left (lstrip s))
        × (all_in left ≡ true)
        × (first_in (lstrip s) ≡ false)
  lstrip-lem [] = ("", refl, refl, refl)
  lstrip-lem (c ∷ s) = elim (Bool-cases (in_class c)) [
    | inl inside ↦
        let (left, whole, all, first) = lstrip-lem s in
        (
          c ∷ left,
          rw inside (ap (◌∷◌ c) whole ∙ sym (cons-append c left (lstrip s))),
          ground arith,
          ground arith,
        )
    | inr outside ↦ ([], rw outside (sym (nil-append (c ∷ s))), refl, ground arith)
  ]

  empty_lem : (s : String) → is_empty s ≡ true → s ≡ []
  empty_lem [] h = refl
  empty_lem (c ∷ s) h = cc

  rstrip-lem :
      (s : String)
      → (right : String) × (s ≡ String.◌++◌ (rstrip s) right)
        × (all_in right ≡ true)
        × (last_in (rstrip s) ≡ false)
  rstrip-lem [] = ("", refl, refl, refl)
  rstrip-lem (c ∷ s) =
      let (right, whole, all, last) = rstrip-lem s in
      elim (Bool-cases (in_class c && is_empty (rstrip s))) [
        | inl gone ↦ (
          c ∷ right,
          rw gone (
              ap (◌∷◌ c) (
                whole
                ∙ ap (λ t. String.◌++◌ t right) (empty_lem (rstrip s) (ground arith))
                ∙ nil-append right)
              ∙ sym (nil-append (c ∷ right))),
          ground arith,
          ground arith,
        )
        | inr stays ↦ (
          right,
          rw stays (ap (◌∷◌ c) whole ∙ sym (cons-append c (rstrip s) right)),
          all,
          rw stays (ground arith),
        )
      ]

  first_in-rstrip : (s : String) → first_in s ≡ false → first_in (rstrip s) ≡ false
  first_in-rstrip [] h = refl
  first_in-rstrip (c ∷ s) h = ground arith

  pub record Stripped (s : String) : Type 0 where
    pub left : String
    pub right : String
    pub whole : s ≡ String.◌++◌ left (String.◌++◌ (strip s) right)
    pub left_in : all_in left ≡ true
    pub right_in : all_in right ≡ true
    pub first_out : first_in (strip s) ≡ false
    pub last_out : last_in (strip s) ≡ false

  pub strip-lem : (s : String) → Stripped s
  unfolding strip
  strip-lem s =
      let (left, whole_left, left_in, first) = lstrip-lem s in
      let (right, whole_right, right_in, last) = rstrip-lem (lstrip s) in
      record {
        left = left;
        right = right;
        whole = whole_left ∙ ap (String.◌++◌ left) whole_right;
        left_in = left_in;
        right_in = right_in;
        first_out = first_in-rstrip (lstrip s) first;
        last_out = last;
      }
