-- ===== src/Sql/Sizes.antt =====
-- How many rows a query of app/repositories/ gives.
use mathlib.Core.List.{Perm, Permᴰ}
use mathlib.Core.Logic.{∥∥₁_elim}
use native.Mathlib.Nat.{ℕ_set}
use crypto_back.Prelude.{
  ℕ, zero, suc, ◌-◌, ◌≡◌, refl, ◌∙◌, ap, List, [], ◌∷◌, length, take, drop, keep_if, true, leb,
  if◌then◌else◌, arith,
}

abbrev pub smaller : ℕ → ℕ → ℕ
smaller m n = if leb m n then m else n

module _ {A : Type 0} where
  length-Permᴰ : {xs ys : List A} → Permᴰ xs ys → length xs ≡ length ys
  length-Permᴰ Permᴰ.nil = refl
  length-Permᴰ (Permᴰ.cons e p) = ap suc (length-Permᴰ p)
  length-Permᴰ (Permᴰ.swap e f) = refl
  length-Permᴰ (Permᴰ.trans p q) = length-Permᴰ p ∙ length-Permᴰ q

  pub length-Perm : {xs ys : List A} → Perm xs ys → length xs ≡ length ys
  length-Perm p = ∥∥₁_elim p (ℕ_set _ _) length-Permᴰ

  pub length-take_min : (n : ℕ) (l : List A) → length (take n l) ≡ smaller n (length l)
  length-take_min zero l = ground arith
  length-take_min (suc n) [] = ground arith
  length-take_min (suc n) (x ∷ l) = ground (arith, length-take_min n l)

  pub length-drop : (n : ℕ) (l : List A) → length (drop n l) ≡ length l - n
  length-drop zero l = omega arith
  length-drop (suc n) [] = omega arith
  length-drop (suc n) (x ∷ l) = omega (arith, length-drop n l)

  pub keep_if-true : (l : List A) → keep_if (λ x. true) l ≡ l
  keep_if-true [] = refl
  keep_if-true (x ∷ l) = ap (λ m. x ∷ m) (keep_if-true l)
