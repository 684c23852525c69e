-- ===== src/Sql/Memory.antt =====
-- A table in memory and its queries, which show that `TableLaws` and `QueriesLaws` can hold.
use mathlib.Core.List.Perm
use mathlib.Core.List.{Perm}
use crypto_back.Prelude.{
  ◌≡◌, inl, inr, Bool-cases, true, false, length, take, drop, All, refl, Bool, not, List, [], ◌∷◌,
  ◌++◌, map, keep_if, any, if◌then◌else◌,
}
use crypto_back.Errors.{other_error, integrity_error}
use crypto_back.Exec.{ok, err}
use crypto_back.Sql.{Table, TableLaws, Queries, QueriesLaws, IsOrder, IsSorted, upsert_rows}

module _ {Row : Type 0} (clash : Row → Row → Bool) where
  abbrev pub memory_table : Table Row (List Row)
  memory_table = record {
    rows = λ l. l;
    select = λ p l. keep_if p l;
    insert = λ x l. if any (clash x) l then err (other_error integrity_error) else ok (l ++ x ∷ []);
    update = λ p f l. map (λ x. if p x then f x else x) l;
    delete = λ p l. keep_if (λ x. not (p x)) l;
  }

  pub memory_table-TableLaws : TableLaws memory_table clash
  memory_table-TableLaws = record {
    select-perm = λ p l. Perm.refl (keep_if p l);
    insert_refused = λ x l h. rw h;
    insert_done = λ x l h. (l ++ x ∷ [], rw h, refl);
    rows-update = λ p f l. refl;
    rows-delete = λ p l. refl;
  }

-- Insertion sort.
module _ {Row : Type 0} (before : Row → Row → Bool) where
  abbrev put : Row → List Row → List Row
  put x [] = x ∷ []
  put x (y ∷ l) = if before x y then x ∷ y ∷ l else y ∷ put x l

  abbrev pub sort : List Row → List Row
  sort [] = []
  sort (x ∷ l) = put x (sort l)

  put-perm : (x : Row) (l : List Row) → Perm (put x l) (x ∷ l)
  put-perm x [] = Perm.refl (x ∷ [])
  put-perm x (y ∷ l) = elim (Bool-cases (before x y)) [
    | inl e ↦ rw e (Perm.refl (x ∷ y ∷ l))
    | inr e ↦ rw e (Perm.trans (Perm.cons y (put-perm x l)) (Perm.swap x y l))
  ]

  sort-perm : (l : List Row) → Perm (sort l) l
  sort-perm [] = Perm.refl []
  sort-perm (x ∷ l) = Perm.trans (put-perm x (sort l)) (Perm.cons x (sort-perm l))

  All-put : (P : Row → Type 0) (x : Row) (l : List Row) → P x → All P l → All P (put x l)
  All-put P x [] h k = (h, tt)
  All-put P x (y ∷ l) h k = elim (Bool-cases (before x y)) [
    | inl e ↦ rw e (h, k)
    | inr e ↦ rw e (k.0, All-put P x l h k.1)
  ]

  module _ (order : IsOrder before) where
    put-IsSorted : (x : Row) (l : List Row) → IsSorted before l → IsSorted before (put x l)
    put-IsSorted x [] h = (tt, tt)
    put-IsSorted x (y ∷ l) h = elim (Bool-cases (before x y)) [
      | inl e ↦ rw e ((e, All-trans x y l e h.0), h)
      | inr e ↦ rw e (All-put (λ z. before y z ≡ true) x l (other x y e) h.0, put-IsSorted x l h.1)
    ]
      where
        other : (x y : Row) → before x y ≡ false → before y x ≡ true
        other x y e = elim (order.total x y) [ inl h ↦ cc | inr h ↦ h ]

        All-trans :
            (x y : Row) (l : List Row)
            → before x y ≡ true
            → All (λ z. before y z ≡ true) l
            → All (λ z. before x z ≡ true) l
        All-trans x y [] e h = tt
        All-trans x y (z ∷ l) e h = (order.trans x y z e h.0, All-trans x y l e h.1)

    sort-IsSorted : (l : List Row) → IsSorted before (sort l)
    sort-IsSorted [] = tt
    sort-IsSorted (x ∷ l) = put-IsSorted x (sort l) (sort-IsSorted l)

module _ {Row : Type 0} (clash : Row → Row → Bool) where
  abbrev pub memory_queries : Queries Row (List Row)
  memory_queries = record {
    count = length;
    ordered = λ p before l. sort before (keep_if p l);
    page = λ p before m n l. take n (drop m (sort before (keep_if p l)));
    upsert = λ conflict set xs l. ok (length xs, upsert_rows conflict set xs l);
  }

  pub memory_queries-QueriesLaws : QueriesLaws (memory_table clash) memory_queries
  memory_queries-QueriesLaws = record {
    count-rows = λ l. refl;
    ordered-perm = λ p before l. sort-perm before (keep_if p l);
    ordered-IsSorted = λ p before l order. sort-IsSorted before order (keep_if p l);
    page_of_ordered = λ p before m n l order. (
      sort before (keep_if p l),
      sort-perm before (keep_if p l),
      sort-IsSorted before order (keep_if p l),
      refl,
    );
    upsert_done = λ conflict set xs l apart. (upsert_rows conflict set xs l, refl, refl);
  }
