-- ===== src/Sql.antt =====
-- A table of the PostgreSQL database as the repositories (app/repositories/) use it through
-- SQLAlchemy. It is no part of the repository: the statements are a parameter, `Table`, and what SQL
-- promises of them a second one, `TableLaws`. `rows` is the content of the table, in the order of
-- insertion; a query may return its rows in any order.
pub mod Scalar
pub mod Sizes
pub mod Memory
use mathlib.Core.List.{Perm}
use crypto_back.Prelude.{
  ℕ, ◌≡◌, ◌⊎◌, Bool, true, false, not, List, [], ◌∷◌, ◌++◌, map, keep_if, any, if◌then◌else◌,
  length, take, drop, All,
}
use crypto_back.Errors.{Error, other_error, integrity_error}
use crypto_back.Exec.{Result, ok, err}

pub record Table (Row D : Type 0) : Type 0 where
  pub rows : D → List Row
  -- `select(Row).where(p)`
  pub select : (Row → Bool) → D → List Row
  -- `db.add(row)` and `db.flush()`
  pub insert : Row → D → Result D
  -- a change of the loaded objects and `db.flush()`
  pub update : (Row → Bool) → (Row → Row) → D → D
  -- `delete(Row).where(p)`
  pub delete : (Row → Bool) → D → D

-- `clash x y`: a unique constraint keeps `x` and `y` from standing in the table together.
pub record TableLaws {Row D : Type 0} (t : Table Row D) (clash : Row → Row → Bool) : Type 0 where
  pub select-perm : (p : Row → Bool) (d : D) → Perm (t.select p d) (keep_if p (t.rows d))
  pub insert_refused :
      (x : Row) (d : D)
      → any (clash x) (t.rows d) ≡ true
      → t.insert x d ≡ err (other_error integrity_error)
  pub insert_done :
      (x : Row) (d : D)
      → any (clash x) (t.rows d) ≡ false
      → (d' : D) × (t.insert x d ≡ ok d') × (t.rows d' ≡ t.rows d ++ x ∷ [])
  pub rows-update :
      (p : Row → Bool) (f : Row → Row) (d : D)
      → t.rows (t.update p f d) ≡ map (λ x. if p x then f x else x) (t.rows d)
  pub rows-delete :
      (p : Row → Bool) (d : D) → t.rows (t.delete p d) ≡ keep_if (λ x. not (p x)) (t.rows d)

-- The queries and the statement of one table that have no counterpart in `Table`.
pub record Queries (Row D : Type 0) : Type 0 where
  -- `select(func.count()).select_from(Row)`
  pub count : D → ℕ
  -- `select(Row).where(p).order_by(...)`, where `before x y` lets `x` stand before `y`
  pub ordered : (Row → Bool) → (Row → Row → Bool) → D → List Row
  -- the same with `.offset(m).limit(n)`
  pub page : (Row → Bool) → (Row → Row → Bool) → ℕ → ℕ → D → List Row
  -- `insert(Row).values(xs).on_conflict_do_update(...)`: `conflict x y` if the row `y` has the index
  -- elements of `x`, and `set x y` is `y` with the values of `x`. It gives the number of rows.
  pub upsert : (Row → Row → Bool) → (Row → Row → Row) → List Row → D → Result (ℕ × D)

module _ {Row : Type 0} where
  -- Every row may stand before those after it.
  abbrev pub IsSorted : (Row → Row → Bool) → List Row → Type 0
  IsSorted before [] = Unit
  IsSorted before (x ∷ xs) = All (λ y. before x y ≡ true) xs × IsSorted before xs

  -- What SQL sorts by: of two rows one may stand before the other, and the order is transitive.
  pub record IsOrder (before : Row → Row → Bool) : Type 0 where
    pub total : (x y : Row) → (before x y ≡ true) ⊎ (before y x ≡ true)
    pub trans : (x y z : Row) → before x y ≡ true → before y z ≡ true → before x z ≡ true

  -- No two rows of one statement have the same index elements.
  abbrev pub IsApart : (Row → Row → Bool) → List Row → Type 0
  IsApart conflict [] = Unit
  IsApart conflict (x ∷ xs) = (any (conflict x) xs ≡ false) × IsApart conflict xs

  -- One row: the row that it conflicts with is changed, and without one it is added.
  abbrev pub upsert_row : (Row → Row → Bool) → (Row → Row → Row) → Row → List Row → List Row
  upsert_row conflict set x l =
      if any (conflict x) l then map (λ y. if conflict x y then set x y else y) l else l ++ x ∷ []

  abbrev pub upsert_rows : (Row → Row → Bool) → (Row → Row → Row) → List Row → List Row → List Row
  upsert_rows conflict set [] l = l
  upsert_rows conflict set (x ∷ xs) l = upsert_rows conflict set xs (upsert_row conflict set x l)

pub record QueriesLaws {Row D : Type 0} (t : Table Row D) (q : Queries Row D) : Type 0 where
  pub count-rows : (d : D) → q.count d ≡ length (t.rows d)
  pub ordered-perm :
      (p : Row → Bool) (before : Row → Row → Bool) (d : D)
      → Perm (q.ordered p before d) (keep_if p (t.rows d))
  pub ordered-IsSorted :
      (p : Row → Bool) (before : Row → Row → Bool) (d : D)
      → IsOrder before
      → IsSorted before (q.ordered p before d)
  -- rows that are equal in the order may come in another order for every page
  pub page_of_ordered :
      (p : Row → Bool) (before : Row → Row → Bool) (m n : ℕ) (d : D)
      → IsOrder before
      → (l : List Row) × Perm l (keep_if p (t.rows d))
        × IsSorted before l
        × (q.page p before m n d ≡ take n (drop m l))
  pub upsert_done :
      (conflict : Row → Row → Bool) (set : Row → Row → Row) (xs : List Row) (d : D)
      → IsApart conflict xs
      → (d' : D) × (q.upsert conflict set xs d ≡ ok (length xs, d'))
        × (t.rows d' ≡ upsert_rows conflict set xs (t.rows d))
