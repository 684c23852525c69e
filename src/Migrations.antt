-- ===== src/Migrations.antt =====
-- The migrations alembic/versions/04b2b242144f_initial_schema.py and
-- alembic/versions/0d5c4492046a_add_price_history_dead_letter_last_.py, each as the statements that it
-- gives, in its order. What a statement does is up to the database: Migrations/Effects.antt.
pub mod Effects
pub mod Steps
pub mod Undo
pub mod Revisions
use crypto_back.Prelude.{ℕ, String, Bool, true, false, Option, none, some, List, [], ◌∷◌}

pub data ColumnType : Type 0 where
  uuid float integer boolean timestamp : ColumnType
  string : ℕ → ColumnType

pub record Column : Type 0 where
  pub name : String
  pub type_of : ColumnType
  pub nullable : Bool
  pub server_default : Option String

-- The columns, the table and the column that each refers to, and what a deletion does.
pub record ForeignKey : Type 0 where
  pub columns : List String
  pub refers_to : List (String × String)
  pub ondelete : String

pub record TableDef : Type 0 where
  pub columns : List Column
  pub primary_key : List String
  pub foreign_keys : List ForeignKey
  pub unique : List (String × List String)

pub record Index : Type 0 where
  pub table : String
  pub columns : List String
  pub unique : Bool

-- The calls of `op`; one of `create_table` or `create_index` names what it makes.
pub data Statement : Type 0 where
  create_table : String → TableDef → Statement
  drop_table : String → Statement
  create_index : String → Index → Statement
  drop_index : String → (table_name : String) → Statement
  add_column : String → Column → Statement
  drop_column : String → String → Statement

-- A column that a row must have, and one that may be NULL, which is the default.
abbrev not_null : String → ColumnType → Column
not_null name type = record { name = name; type_of = type; nullable = false; server_default = none }

abbrev or_null : String → ColumnType → Column
or_null name type = record { name = name; type_of = type; nullable = true; server_default = none }

abbrev with_default : String → Column → Column
with_default text c = record c { server_default = some text }

abbrev by_id : List Column → TableDef
by_id columns = record {
  columns = columns;
  primary_key = "id" ∷ [];
  foreign_keys = [];
  unique = [];
}

abbrev pub users_table : TableDef
users_table = by_id (
    not_null "id" uuid
    ∷ not_null "email" (string 255)
    ∷ not_null "hashed_password" (string 255)
    ∷ with_default "user" (not_null "role" (string 50))
    ∷ or_null "refresh_token" (string 512)
    ∷ with_default "now()" (or_null "created_at" timestamp)
    ∷ [])

abbrev pub cryptocurrencies_table : TableDef
cryptocurrencies_table = by_id (
    not_null "id" uuid
    ∷ not_null "external_id" (string 100)
    ∷ not_null "name" (string 100)
    ∷ not_null "symbol" (string 20)
    ∷ or_null "current_price" float
    ∷ or_null "market_cap" float
    ∷ or_null "price_change_percentage_24h" float
    ∷ or_null "image_url" (string 500)
    ∷ or_null "market_cap_rank" integer
    ∷ or_null "last_updated_at" timestamp
    ∷ with_default "now()" (or_null "created_at" timestamp)
    ∷ [])

abbrev cascade : String → String → String → ForeignKey
cascade column table key = record {
  columns = column ∷ [];
  refers_to = (table, key) ∷ [];
  ondelete = "CASCADE";
}

abbrev pub watchlist_table : TableDef
watchlist_table = record {
  columns =
      not_null "id" uuid
      ∷ not_null "user_id" uuid
      ∷ not_null "cryptocurrency_id" uuid
      ∷ with_default "now()" (or_null "added_at" timestamp)
      ∷ [];
  primary_key = "id" ∷ [];
  foreign_keys =
      cascade "user_id" "users" "id" ∷ cascade "cryptocurrency_id" "cryptocurrencies" "id" ∷ [];
  unique = ("uq_user_crypto", "user_id" ∷ "cryptocurrency_id" ∷ []) ∷ [];
}

abbrev pub price_history_table : TableDef
price_history_table = by_id (
    not_null "id" uuid
    ∷ not_null "external_id" (string 100)
    ∷ not_null "price" float
    ∷ not_null "recorded_at" timestamp
    ∷ with_default "now()" (not_null "created_at" timestamp)
    ∷ [])

abbrev pub refresh_dead_letter_table : TableDef
refresh_dead_letter_table = by_id (
    not_null "id" uuid
    ∷ not_null "batch_page" integer
    ∷ not_null "error" (string 2000)
    ∷ with_default "now()" (not_null "failed_at" timestamp)
    ∷ with_default "0" (not_null "retries" integer)
    ∷ with_default "false" (not_null "resolved" boolean)
    ∷ [])

abbrev pub last_refreshed_at : Column
last_refreshed_at = or_null "last_refreshed_at" timestamp

abbrev pub index_on : String → List String → Index
index_on table columns = record { table = table; columns = columns; unique = false }

-- The tables and indexes of the first revision.
abbrev pub upgrade_initial : List Statement
upgrade_initial =
    create_table "users" users_table
    ∷ create_index "ix_users_email" (record (index_on "users" ("email" ∷ [])) { unique = true })
    ∷ create_table "cryptocurrencies" cryptocurrencies_table
    ∷ create_index "ix_cryptocurrencies_external_id"
        (record (index_on "cryptocurrencies" ("external_id" ∷ [])) { unique = true })
    ∷ create_index "ix_cryptocurrencies_symbol" (index_on "cryptocurrencies" ("symbol" ∷ []))
    ∷ create_table "watchlist" watchlist_table
    ∷ []

abbrev pub downgrade_initial : List Statement
downgrade_initial = drop_table "watchlist" ∷ drop_table "cryptocurrencies" ∷ drop_table "users" ∷ []

-- Those of the second, which adds a column.
abbrev pub upgrade_history : List Statement
upgrade_history =
    add_column "cryptocurrencies" last_refreshed_at
    ∷ create_table "price_history" price_history_table
    ∷ create_index "ix_price_history_external_id" (index_on "price_history" ("external_id" ∷ []))
    ∷ create_index "ix_price_history_recorded_at" (index_on "price_history" ("recorded_at" ∷ []))
    ∷ create_index "ix_price_history_external_id_recorded_at"
        (index_on "price_history" ("external_id" ∷ "recorded_at" ∷ []))
    ∷ create_table "refresh_dead_letter" refresh_dead_letter_table
    ∷ []

abbrev pub downgrade_history : List Statement
downgrade_history =
    drop_table "refresh_dead_letter"
    ∷ drop_index "ix_price_history_external_id_recorded_at" "price_history"
    ∷ drop_index "ix_price_history_recorded_at" "price_history"
    ∷ drop_index "ix_price_history_external_id" "price_history"
    ∷ drop_table "price_history"
    ∷ drop_column "cryptocurrencies" "last_refreshed_at"
    ∷ []
