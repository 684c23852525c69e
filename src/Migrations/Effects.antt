-- ===== src/Migrations/Effects.antt =====
-- What PostgreSQL documents of the statements of the migrations in alembic/versions: when one is
-- refused, and what it does otherwise. Of a database the names of its tables and indexes, which share
-- one namespace, and their definitions are seen, the newest first.
use crypto_back.Prelude.{
  String, Bool, not, ◌&&◌, ◌||◌, Option, none, some, List, [], ◌∷◌, ◌++◌, map, any, keep_if, str_eq,
  if◌then◌else◌,
}
use mathlib.Core.Option
use crypto_back.Migrations.{
  Column, ForeignKey, TableDef, Index, Statement, create_table, drop_table, create_index,
  drop_index, add_column, drop_column,
}

pub record Schema : Type 0 where
  pub tables : List (String × TableDef)
  pub indexes : List (String × Index)

abbrev pub is_named {ℓ} : {A : Type ℓ} → String → String × A → Bool
is_named n (m, _) = str_eq m n

abbrev pub has_name {ℓ} : {A : Type ℓ} → String → List (String × A) → Bool
has_name n = any (is_named n)

abbrev pub remove {ℓ} : {A : Type ℓ} → String → List (String × A) → List (String × A)
remove n = keep_if (λ e. not (is_named n e))

-- The definition under the name is changed.
abbrev change {ℓ} : {A : Type ℓ} → String → (A → A) → String × A → String × A
change n f (m, def) = (m, if str_eq m n then f def else def)

abbrev pub update {ℓ} : {A : Type ℓ} → String → (A → A) → List (String × A) → List (String × A)
update n f = map (change n f)

abbrev is_in : List String → String → Bool
is_in names name = any (str_eq name) names

abbrev has_column : String → String × TableDef → Bool
has_column name (_, def) = any (λ (c : Column). str_eq c.name name) def.columns

abbrev pub has_column_of : String → String → List (String × TableDef) → Bool
has_column_of t name = any (λ e. is_named t e && has_column name e)

abbrev pub column_of : String → String → String × String → Bool
column_of t name (u, key) = str_eq u t && str_eq key name

-- A foreign key of the table refers to `t`, or to its column.
abbrev pub mentions : String → String × TableDef → Bool
mentions t (_, def) = any (λ (k : ForeignKey). any (is_named t) k.refers_to) def.foreign_keys

abbrev pub mentions_column : String → String → String × TableDef → Bool
mentions_column t name (_, def) =
    any (λ (k : ForeignKey). any (column_of t name) k.refers_to) def.foreign_keys

-- A table but `t` refers to it.
abbrev pub depends_on : String → String × TableDef → Bool
depends_on t e = not (is_named t e) && mentions t e

abbrev pub is_on : String → String × Index → Bool
is_on t (_, i) = str_eq i.table t

abbrev pub involves : String → String → String × Index → Bool
involves t name (n, i) = is_on t (n, i) && is_in i.columns name

abbrev pub with_column : Column → TableDef → TableDef
with_column c def = record def { columns = def.columns ++ c ∷ [] }

abbrev holds_column : String → String × List String → Bool
holds_column name (_, names) = is_in names name

-- The constraints that involve the column go with it.
abbrev pub without_column : String → TableDef → TableDef
without_column name def = record {
  columns = keep_if (λ (c : Column). not (str_eq c.name name)) def.columns;
  primary_key = if is_in def.primary_key name then [] else def.primary_key;
  foreign_keys = keep_if (λ (k : ForeignKey). not (is_in k.columns name)) def.foreign_keys;
  unique = keep_if (λ e. not (holds_column name e)) def.unique;
}

abbrev is_missing : List (String × TableDef) → String × String → Bool
is_missing tables (t, name) = not (has_column_of t name tables)

-- Each target of a foreign key stands, in a table of the database.
abbrev pub targets_stand : List (String × TableDef) → TableDef → Bool
targets_stand tables def =
    not (any (λ (k : ForeignKey). any (is_missing tables) k.refers_to) def.foreign_keys)

abbrev pub columns_stand : List (String × TableDef) → Index → Bool
columns_stand tables i = not (any (λ name. not (has_column_of i.table name tables)) i.columns)

-- A unique constraint of the table has the name.
abbrev pub has_unique : String → String × TableDef → Bool
has_unique n (_, def) = has_name n def.unique

abbrev pub is_taken : String → Schema → Bool
is_taken n v = has_name n v.tables || (has_name n v.indexes || any (has_unique n) v.tables)

abbrev pub is_free : Schema → TableDef → Bool
is_free v def = not (any (λ (n, _). is_taken n v) def.unique)

abbrev unless : Bool → Schema → Option Schema
unless refused v = if refused then none else some v

unfoldable pub effect : Statement → Schema → Option Schema
effect (create_table t def) v =
    unless (is_taken t v || (not (is_free v def) || not (targets_stand v.tables def)))
      (record v { tables = (t, def) ∷ v.tables })
effect (drop_table t) v =
    unless (not (has_name t v.tables) || any (depends_on t) v.tables)
      (record { tables = remove t v.tables; indexes = keep_if (λ e. not (is_on t e)) v.indexes })
effect (create_index n i) v =
    unless (is_taken n v || not (columns_stand v.tables i))
      (record v { indexes = (n, i) ∷ v.indexes })
effect (drop_index n _) v =
    unless (not (has_name n v.indexes)) (record v { indexes = remove n v.indexes })
effect (add_column t c) v =
    unless (not (has_name t v.tables) || has_column_of t c.name v.tables)
      (record v { tables = update t (with_column c) v.tables })
effect (drop_column t name) v =
    unless (not (has_column_of t name v.tables) || any (mentions_column t name) v.tables) (record {
      tables = update t (without_column name) v.tables;
      indexes = keep_if (λ e. not (involves t name e)) v.indexes;
    })

-- A migration stops at the first statement that is refused.
unfoldable pub run {ℓ} : {S : Type ℓ} → (Statement → S → Option S) → List Statement → S → Option S
run give [] s = some s
run give (st ∷ sts) s = Option.bind (give st s) (run give sts)
