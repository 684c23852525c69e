-- ===== src/Migrations/Steps.antt =====
-- A statement of alembic/versions that is not refused, and lists that it leaves as they are.
use mathlib.Core.Option
use crypto_back.Prelude.{
  ◌≡◌, refl, ap, String, Bool, true, false, not, some, List, [], ◌∷◌, ◌++◌, any, keep_if, arith,
}
use crypto_back.Migrations.{
  Column, ForeignKey, TableDef, Index, Statement, create_table, drop_table, create_index,
  drop_index, add_column, drop_column,
}
use crypto_back.Migrations.Effects.{
  Schema, effect, run, has_name, has_column_of, is_named, is_on, involves, mentions,
  mentions_column, depends_on, has_unique, is_free, remove, update, with_column, without_column,
  targets_stand, columns_stand, column_of,
}

pub any_mono {ℓ} :
    {A : Type ℓ} (p q : A → Bool)
    → ((x : A) → p x ≡ false → q x ≡ false)
    → (l : List A) → any p l ≡ false
    → any q l ≡ false
any_mono p q mono [] e = refl
any_mono p q mono (x ∷ l) e = ground (arith, mono x, any_mono p q mono l)

pub keep_if-none {ℓ} :
    {A : Type ℓ} (p : A → Bool) (l : List A) → any p l ≡ false → keep_if (λ x. not (p x)) l ≡ l
keep_if-none p [] e = refl
keep_if-none p (x ∷ l) e = ground (arith, keep_if-none p l)

pub update_absent {ℓ} :
    {A : Type ℓ} (n : String) (f : A → A) (l : List (String × A))
    → has_name n l ≡ false
    → update n f l ≡ l
update_absent n f [] e = refl
update_absent n f ((m, a) ∷ l) e = ground (arith, update_absent n f l)

pub remove_absent {ℓ} :
    {A : Type ℓ} (n : String) (l : List (String × A)) → has_name n l ≡ false → remove n l ≡ l
remove_absent n = keep_if-none (is_named n)

pub has_column_of_absent :
    (t name : String) (l : List (String × TableDef))
    → has_name t l ≡ false
    → has_column_of t name l ≡ false
has_column_of_absent t name = any_mono (is_named t) _ (λ e absent. rw (absent) refl)

pub depends_on-mentions :
    (t : String) (l : List (String × TableDef))
    → any (mentions t) l ≡ false
    → any (depends_on t) l ≡ false
depends_on-mentions t = any_mono (mentions t) (depends_on t) (λ e none_there. ground arith)

pub mentions_column-mentions :
    (t name : String) (l : List (String × TableDef))
    → any (mentions t) l ≡ false
    → any (mentions_column t name) l ≡ false
mentions_column-mentions t name = any_mono (mentions t) (mentions_column t name) (λ (u, def).
    any_mono _ _
      (λ (k : ForeignKey).
        any_mono (is_named t) (column_of t name) (λ (u, key) other. rw (other) refl) k.refers_to)
      def.foreign_keys)

pub involves_on :
    (t name : String) (l : List (String × Index))
    → any (is_on t) l ≡ false
    → any (involves t name) l ≡ false
involves_on t name = any_mono (is_on t) (involves t name) (λ (n, i) off. rw (off) refl)

pub run_next :
    (st : Statement) (sts : List Statement) (v : Schema) {w x : Schema}
    → effect st v ≡ some w
    → run effect sts w ≡ some x
    → run effect (st ∷ sts) v ≡ some x
unfolding Option.bind run
run_next st sts v e rest = rw (e) rest

pub effect-create_table :
    (t : String) (def : TableDef) (v : Schema)
    → has_name t v.tables ≡ false
    → has_name t v.indexes ≡ false
    → any (has_unique t) v.tables ≡ false
    → is_free v def ≡ true
    → targets_stand v.tables def ≡ true
    → effect (create_table t def) v ≡ some (record v { tables = (t, def) ∷ v.tables })
unfolding effect
effect-create_table t def v no_table no_index no_unique free targets =
    rw (no_table, no_index, no_unique, free, targets) refl

pub effect-create_index :
    (n : String) (i : Index) (v : Schema)
    → has_name n v.tables ≡ false
    → has_name n v.indexes ≡ false
    → any (has_unique n) v.tables ≡ false
    → columns_stand v.tables i ≡ true
    → effect (create_index n i) v ≡ some (record v { indexes = (n, i) ∷ v.indexes })
unfolding effect
effect-create_index n i v no_table no_index no_unique columns =
    rw (no_table, no_index, no_unique, columns) refl

pub run_end : {v w : Schema} → v ≡ w → run effect [] v ≡ some w
unfolding run
run_end e = ap some e

pub effect-add_column :
    (t : String) (c : Column) (v : Schema) {tables : List (String × TableDef)}
    → has_name t v.tables ≡ true
    → has_column_of t c.name v.tables ≡ false
    → update t (with_column c) v.tables ≡ tables
    → effect (add_column t c) v ≡ some (record v { tables = tables })
unfolding effect
effect-add_column t c v stands new after = rw (stands, new, after) refl

pub effect-drop_table :
    (t : String) (v : Schema) {tables : List (String × TableDef)} {indexes : List (String × Index)}
    → has_name t v.tables ≡ true
    → any (depends_on t) v.tables ≡ false
    → remove t v.tables ≡ tables
    → keep_if (λ e. not (is_on t e)) v.indexes ≡ indexes
    → effect (drop_table t) v ≡ some (record { tables = tables; indexes = indexes })
unfolding effect
effect-drop_table t v stands free tables indexes = rw (stands, free, tables, indexes) refl

pub effect-drop_index :
    (n t : String) (v : Schema) {indexes : List (String × Index)}
    → has_name n v.indexes ≡ true
    → remove n v.indexes ≡ indexes
    → effect (drop_index n t) v ≡ some (record v { indexes = indexes })
unfolding effect
effect-drop_index n t v stands indexes = rw (stands, indexes) refl

pub effect-drop_column :
    (t name : String) (v : Schema) {tables : List (String × TableDef)}
    {indexes : List (String × Index)}
    → has_column_of t name v.tables ≡ true
    → any (mentions_column t name) v.tables ≡ false
    → update t (without_column name) v.tables ≡ tables
    → keep_if (λ e. not (involves t name e)) v.indexes ≡ indexes
    → effect (drop_column t name) v ≡ some (record { tables = tables; indexes = indexes })
unfolding effect
effect-drop_column t name v stands free tables indexes = rw (stands, free, tables, indexes) refl

pub any-append_true {ℓ} :
    {A : Type ℓ} (p : A → Bool) (top l : List A) → any p top ≡ true → any p (top ++ l) ≡ true
any-append_true p [] l e = ground arith
any-append_true p (x ∷ top) l e = ground (arith, any-append_true p top l)

pub any-append_false {ℓ} :
    {A : Type ℓ} (p : A → Bool) (top l : List A)
    → any p top ≡ false
    → any p l ≡ false
    → any p (top ++ l) ≡ false
any-append_false p [] l e f = f
any-append_false p (x ∷ top) l e f = ground (arith, any-append_false p top l)

pub keep_if-append {ℓ} :
    {A : Type ℓ} (p : A → Bool) (top l : List A)
    → any p l ≡ false
    → keep_if (λ x. not (p x)) (top ++ l) ≡ keep_if (λ x. not (p x)) top ++ l
keep_if-append p [] l e = keep_if-none p l e
keep_if-append p (x ∷ top) l e = ground (arith, keep_if-append p top l)

pub update-append {ℓ} :
    {A : Type ℓ} (n : String) (f : A → A) (top l : List (String × A))
    → has_name n l ≡ false
    → update n f (top ++ l) ≡ update n f top ++ l
update-append n f [] l e = update_absent n f l e
update-append n f (x ∷ top) l e = rw (update-append n f top l e) refl
