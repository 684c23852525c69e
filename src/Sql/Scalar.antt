-- ===== src/Sql/Scalar.antt =====
-- `result.scalar_one_or_none()`: the one row of a query, none, or an exception for more.
use mathlib.Core.List.{Perm, Permᴰ}
use mathlib.Core.Logic.{∥∥₁_elim}
use mathlib.Core.Path.{ap₂}
use text.Mathlib.TextEquality.{IsScalar-prop}
use crypto_back.Prelude.{
  ◌≡◌, refl, ◌≢◌, ◌∙◌, ap, sym, Bool-cases, inl, inr, Bool, true, false, Option, none, some, List,
  [], ◌∷◌, ◌++◌, map, keep_if, arith,
}
use crypto_back.Errors.{other_error, multiple_results}
use crypto_back.Exec.{Result, ok, err}

module _ {Row : Type 0} where
  abbrev pub with_row : Row → Result (Option Row) → Result (Option Row)
  with_row x (ok none) = ok (some x)
  with_row x r = err (other_error multiple_results)

  unfoldable pub scalar_one_or_none : List Row → Result (Option Row)
  scalar_one_or_none [] = ok none
  scalar_one_or_none (x ∷ xs) = with_row x (scalar_one_or_none xs)

  with_row_swap :
      (x y : Row) (r : Result (Option Row)) → with_row x (with_row y r) ≡ with_row y (with_row x r)
  with_row_swap x y (ok none) = refl
  with_row_swap x y (ok (some z)) = refl
  with_row_swap x y (err e) = refl

  scalar-permᴰ : {xs ys : List Row} → Permᴰ xs ys → scalar_one_or_none xs ≡ scalar_one_or_none ys
  unfolding scalar_one_or_none
  scalar-permᴰ Permᴰ.nil = refl
  scalar-permᴰ (Permᴰ.cons e p) = ap₂ with_row e (scalar-permᴰ p)
  scalar-permᴰ (Permᴰ.swap {a = a} {b = b} {l = l} e f) =
      with_row_swap a b (scalar_one_or_none l)
      ∙ ap₂ (λ x y. with_row x (with_row y (scalar_one_or_none l))) f e
  scalar-permᴰ (Permᴰ.trans p q) = scalar-permᴰ p ∙ scalar-permᴰ q

  -- The order in which a query returns its rows does not show.
  pub scalar-perm :
      IsSet Row → {xs ys : List Row} → Perm xs ys → scalar_one_or_none xs ≡ scalar_one_or_none ys
  scalar-perm row_set p = ∥∥₁_elim p (hlevel (row_set, IsScalar-prop)) scalar-permᴰ

  abbrev pub map_row : (Row → Row) → Result (Option Row) → Result (Option Row)
  map_row g (ok none) = ok none
  map_row g (ok (some x)) = ok (some (g x))
  map_row g (err e) = err e

  map_row-with_row :
      (g : Row → Row) (x : Row) (r : Result (Option Row))
      → map_row g (with_row x r) ≡ with_row (g x) (map_row g r)
  map_row-with_row g x (ok none) = refl
  map_row-with_row g x (ok (some y)) = refl
  map_row-with_row g x (err e) = refl

  -- A change of rows that a query does not look at.
  pub scalar-map :
      (p : Row → Bool) (g : Row → Row) (l : List Row)
      → ((x : Row) → p (g x) ≡ p x)
      → scalar_one_or_none (keep_if p (map g l)) ≡ map_row g (scalar_one_or_none (keep_if p l))
  unfolding scalar_one_or_none
  scalar-map p g [] h = refl
  scalar-map p g (x ∷ l) h = elim (Bool-cases (p x)) [
    | inl e ↦ rw e (
        rw (h x ∙ e) (
          ap (with_row (g x)) (scalar-map p g l h)
          ∙ sym (map_row-with_row g x (scalar_one_or_none (keep_if p l)))))
    | inr e ↦ rw e (rw (h x ∙ e) (scalar-map p g l h))
  ]

  pub scalar-append_no :
      (p : Row → Bool) (x : Row) (l : List Row)
      → p x ≡ false
      → scalar_one_or_none (keep_if p (l ++ x ∷ [])) ≡ scalar_one_or_none (keep_if p l)
  unfolding scalar_one_or_none
  scalar-append_no p x [] e = rw e
  scalar-append_no p x (y ∷ l) e = ground (arith, scalar-append_no p x l e)

  pub with_row-ne-none : (y : Row) (r : Result (Option Row)) → with_row y r ≢ ok none
  with_row-ne-none y (ok none) h = cc
  with_row-ne-none y (ok (some z)) h = cc
  with_row-ne-none y (err e) h = cc

  pub scalar-append_new :
      (p : Row → Bool) (x : Row) (l : List Row)
      → p x ≡ true
      → scalar_one_or_none (keep_if p l) ≡ ok none
      → scalar_one_or_none (keep_if p (l ++ x ∷ [])) ≡ ok (some x)
  unfolding scalar_one_or_none
  scalar-append_new p x [] e h = rw e
  scalar-append_new p x (y ∷ l) e h =
      ground
        (arith, scalar-append_new p x l e, with_row-ne-none y (scalar_one_or_none (keep_if p l)))

  scalar-keep_none :
      (p s : Row → Bool) (l : List Row)
      → scalar_one_or_none (keep_if p l) ≡ ok none
      → scalar_one_or_none (keep_if p (keep_if s l)) ≡ ok none
  unfolding scalar_one_or_none
  scalar-keep_none p s [] h = refl
  scalar-keep_none p s (y ∷ l) h =
      ground (arith, scalar-keep_none p s l, with_row-ne-none y (scalar_one_or_none (keep_if p l)))

  with_row-eq-some :
      (x y : Row) (r : Result (Option Row)) → with_row y r ≡ ok (some x) → (r ≡ ok none) × (y ≡ x)
  with_row-eq-some x y (ok none) h = (refl, ground arith)
  with_row-eq-some x y (ok (some z)) h = cc
  with_row-eq-some x y (err e) h = cc

  -- A query for the one row that is deleted finds nothing afterwards.
  pub scalar-keep_deleted :
      (p s : Row → Bool) (x : Row) (l : List Row)
      → scalar_one_or_none (keep_if p l) ≡ ok (some x)
      → s x ≡ false
      → scalar_one_or_none (keep_if p (keep_if s l)) ≡ ok none
  unfolding scalar_one_or_none
  scalar-keep_deleted p s x [] h e = cc
  scalar-keep_deleted p s x (y ∷ l) h e = elim (Bool-cases (p y)) [
    | inl py ↦
        let (rest, same) = with_row-eq-some x y (scalar_one_or_none (keep_if p l)) (ground arith) in
        ground (arith, scalar-keep_none p s l rest)
    | inr ny ↦ ground (arith, scalar-keep_deleted p s x l)
  ]
