-- ===== src/Migrations/Undo.antt =====
-- The revisions of alembic/versions, going up and down again.
use crypto_back.Prelude.{
  ◌≡◌, refl, String, Bool, true, false, not, some, List, [], ◌∷◌, ◌++◌, any, keep_if, str_eq,
}
use crypto_back.Migrations.{
  TableDef, Index, drop_table, drop_index, drop_column, users_table, cryptocurrencies_table,
  watchlist_table, price_history_table, refresh_dead_letter_table, last_refreshed_at,
  upgrade_initial, downgrade_initial, upgrade_history, downgrade_history, index_on,
}
use crypto_back.Migrations.Effects.{
  Schema, effect, run, has_name, has_column_of, is_named, is_on, involves, mentions,
  mentions_column, depends_on, has_unique, is_free, remove, update, with_column, without_column,
}
use crypto_back.Migrations.Steps.{
  run_next, run_end, effect-create_table, effect-create_index, effect-add_column, effect-drop_table,
  effect-drop_index, effect-drop_column, update_absent, has_column_of_absent, depends_on-mentions,
  mentions_column-mentions, involves_on, any-append_true, any-append_false, keep_if-append,
  update-append,
}

-- The names that the revisions give.
abbrev pub own_names : List String
own_names =
    "users" ∷ "cryptocurrencies" ∷ "watchlist" ∷ "price_history" ∷ "refresh_dead_letter"
    ∷ "ix_users_email" ∷ "ix_cryptocurrencies_external_id" ∷ "ix_cryptocurrencies_symbol"
    ∷ "ix_price_history_external_id" ∷ "ix_price_history_recorded_at"
    ∷ "ix_price_history_external_id_recorded_at" ∷ "uq_user_crypto" ∷ []

abbrev pub is_own : String → Bool
is_own n = any (str_eq n) own_names

-- What else is in the database, its unique constraints included, has none of the names, and does not
-- refer to them.
pub record IsClear (v : Schema) : Type 0 where
  pub no_table : (n : String) → is_own n ≡ true → has_name n v.tables ≡ false
  pub no_index : (n : String) → is_own n ≡ true → has_name n v.indexes ≡ false
  pub no_unique : (n : String) → is_own n ≡ true → any (has_unique n) v.tables ≡ false
  pub no_key : (n : String) → is_own n ≡ true → any (mentions n) v.tables ≡ false
  pub none_on : (n : String) → is_own n ≡ true → any (is_on n) v.indexes ≡ false

-- A schema with these tables and indexes in front.
unfoldable pub on_top : List (String × TableDef) → List (String × Index) → Schema → Schema
on_top tables indexes v = record { tables = tables ++ v.tables; indexes = indexes ++ v.indexes }

-- Those of the first revision, and of both.
abbrev pub initial_tables : List (String × TableDef)
initial_tables =
    ("watchlist", watchlist_table)
    ∷ ("cryptocurrencies", cryptocurrencies_table)
    ∷ ("users", users_table)
    ∷ []

abbrev pub initial_indexes : List (String × Index)
initial_indexes =
    ("ix_cryptocurrencies_symbol", index_on "cryptocurrencies" ("symbol" ∷ []))
    ∷ (
      "ix_cryptocurrencies_external_id",
      record (index_on "cryptocurrencies" ("external_id" ∷ [])) { unique = true },
    )
    ∷ ("ix_users_email", record (index_on "users" ("email" ∷ [])) { unique = true })
    ∷ []

abbrev pub history_tables : List (String × TableDef)
history_tables =
    ("refresh_dead_letter", refresh_dead_letter_table)
    ∷ ("price_history", price_history_table)
    ∷ ("watchlist", watchlist_table)
    ∷ ("cryptocurrencies", with_column last_refreshed_at cryptocurrencies_table)
    ∷ ("users", users_table)
    ∷ []

abbrev pub history_indexes : List (String × Index)
history_indexes =
    (
      "ix_price_history_external_id_recorded_at",
      index_on "price_history" ("external_id" ∷ "recorded_at" ∷ []),
    )
    ∷ ("ix_price_history_recorded_at", index_on "price_history" ("recorded_at" ∷ []))
    ∷ ("ix_price_history_external_id", index_on "price_history" ("external_id" ∷ []))
    ∷ initial_indexes

abbrev pub initial_schema : Schema → Schema
initial_schema = on_top initial_tables initial_indexes

abbrev pub history_schema : Schema → Schema
history_schema = on_top history_tables history_indexes

on_top_nothing : {v : Schema} → on_top [] [] v ≡ v
unfolding on_top
on_top_nothing = refl

module _ {v : Schema} (clear : IsClear v) where
  uq_is_free :
      is_free
        (record {
          tables = ("cryptocurrencies", cryptocurrencies_table) ∷ ("users", users_table) ∷ v.tables;
          indexes = initial_indexes ++ v.indexes;
        })
        watchlist_table
      ≡ true
  uq_is_free =
      rw
        (
          clear.no_table "uq_user_crypto" refl,
          clear.no_index "uq_user_crypto" refl,
          clear.no_unique "uq_user_crypto" refl,
        )
        refl

  pub upgrade_initial_lem : run effect upgrade_initial v ≡ some (initial_schema v)
  unfolding on_top
  upgrade_initial_lem =
      run_next _ _ _
        (effect-create_table _ _ _ (clear.no_table "users" refl) (clear.no_index "users" refl)
          (clear.no_unique "users" refl) refl refl)
        (run_next _ _ _
          (effect-create_index _ _ _ (clear.no_table "ix_users_email" refl)
            (clear.no_index "ix_users_email" refl) (clear.no_unique "ix_users_email" refl) refl)
          (run_next _ _ _
            (effect-create_table _ _ _ (clear.no_table "cryptocurrencies" refl)
              (clear.no_index "cryptocurrencies" refl) (clear.no_unique "cryptocurrencies" refl)
              refl refl)
            (run_next _ _ _
              (effect-create_index _ _ _ (clear.no_table "ix_cryptocurrencies_external_id" refl)
                (clear.no_index "ix_cryptocurrencies_external_id" refl)
                (clear.no_unique "ix_cryptocurrencies_external_id" refl) refl)
              (run_next _ _ _
                (effect-create_index _ _ _ (clear.no_table "ix_cryptocurrencies_symbol" refl)
                  (clear.no_index "ix_cryptocurrencies_symbol" refl)
                  (clear.no_unique "ix_cryptocurrencies_symbol" refl) refl)
                (run_next _ _ _
                  (effect-create_table _ _ _ (clear.no_table "watchlist" refl)
                    (clear.no_index "watchlist" refl) (clear.no_unique "watchlist" refl) uq_is_free
                    refl)
                  (run_end refl))))))

  pub upgrade_history_lem : run effect upgrade_history (initial_schema v) ≡ some (history_schema v)
  unfolding on_top
  upgrade_history_lem =
      run_next _ _ _
        (effect-add_column _ _ _ refl
          (has_column_of_absent "cryptocurrencies" "last_refreshed_at" v.tables
            (clear.no_table "cryptocurrencies" refl))
          (rw
            (update_absent "cryptocurrencies" (with_column last_refreshed_at) v.tables
              (clear.no_table "cryptocurrencies" refl))
            refl))
        (run_next _ _ _
          (effect-create_table _ _ _ (clear.no_table "price_history" refl)
            (clear.no_index "price_history" refl) (clear.no_unique "price_history" refl) refl refl)
          (run_next _ _ _
            (effect-create_index _ _ _ (clear.no_table "ix_price_history_external_id" refl)
              (clear.no_index "ix_price_history_external_id" refl)
              (clear.no_unique "ix_price_history_external_id" refl) refl)
            (run_next _ _ _
              (effect-create_index _ _ _ (clear.no_table "ix_price_history_recorded_at" refl)
                (clear.no_index "ix_price_history_recorded_at" refl)
                (clear.no_unique "ix_price_history_recorded_at" refl) refl)
              (run_next _ _ _
                (effect-create_index _ _ _
                  (clear.no_table "ix_price_history_external_id_recorded_at" refl)
                  (clear.no_index "ix_price_history_external_id_recorded_at" refl)
                  (clear.no_unique "ix_price_history_external_id_recorded_at" refl) refl)
                (run_next _ _ _
                  (effect-create_table _ _ _ (clear.no_table "refresh_dead_letter" refl)
                    (clear.no_index "refresh_dead_letter" refl)
                    (clear.no_unique "refresh_dead_letter" refl) refl refl)
                  (run_end refl))))))

  drop_table_lem :
      (t : String) (tables : List (String × TableDef)) (indexes : List (String × Index))
      → is_own t ≡ true
      → has_name t tables ≡ true
      → any (depends_on t) tables ≡ false
      → effect (drop_table t) (on_top tables indexes v)
        ≡ some (on_top (remove t tables) (keep_if (λ e. not (is_on t e)) indexes) v)
  unfolding on_top
  drop_table_lem t tables indexes own stands free =
      effect-drop_table t _ (any-append_true (is_named t) tables v.tables stands)
        (any-append_false (depends_on t) tables v.tables free
          (depends_on-mentions t v.tables (clear.no_key t own)))
        (keep_if-append (is_named t) tables v.tables (clear.no_table t own))
        (keep_if-append (is_on t) indexes v.indexes (clear.none_on t own))

  drop_index_lem :
      (n t : String) (tables : List (String × TableDef)) (indexes : List (String × Index))
      → is_own n ≡ true
      → has_name n indexes ≡ true
      → effect (drop_index n t) (on_top tables indexes v)
        ≡ some (on_top tables (remove n indexes) v)
  unfolding on_top
  drop_index_lem n t tables indexes own stands =
      effect-drop_index n t _ (any-append_true (is_named n) indexes v.indexes stands)
        (keep_if-append (is_named n) indexes v.indexes (clear.no_index n own))

  drop_column_lem :
      (t name : String) (tables : List (String × TableDef)) (indexes : List (String × Index))
      → is_own t ≡ true
      → has_column_of t name tables ≡ true
      → any (mentions_column t name) tables ≡ false
      → effect (drop_column t name) (on_top tables indexes v)
        ≡ some (
            on_top
              (update t (without_column name) tables)
              (keep_if (λ e. not (involves t name e)) indexes)
              v)
  unfolding on_top
  drop_column_lem t name tables indexes own stands free =
      effect-drop_column t name _ (any-append_true _ tables v.tables stands)
        (any-append_false (mentions_column t name) tables v.tables free
          (mentions_column-mentions t name v.tables (clear.no_key t own)))
        (update-append t (without_column name) tables v.tables (clear.no_table t own))
        (keep_if-append (involves t name) indexes v.indexes
          (involves_on t name v.indexes (clear.none_on t own)))

  pub downgrade_history_lem :
      run effect downgrade_history (history_schema v) ≡ some (initial_schema v)
  downgrade_history_lem = run_next _ _ _ (drop_table_lem "refresh_dead_letter" _ _ refl refl refl) (
      run_next _ _ _ (drop_index_lem "ix_price_history_external_id_recorded_at" _ _ _ refl refl) (
        run_next _ _ _ (drop_index_lem "ix_price_history_recorded_at" _ _ _ refl refl) (
          run_next _ _ _ (drop_index_lem "ix_price_history_external_id" _ _ _ refl refl) (
            run_next _ _ _ (drop_table_lem "price_history" _ _ refl refl refl) (
              run_next _ _ _
                (drop_column_lem "cryptocurrencies" "last_refreshed_at" _ _ refl refl refl)
                (run_end refl))))))

  pub downgrade_initial_lem : run effect downgrade_initial (initial_schema v) ≡ some v
  downgrade_initial_lem = run_next _ _ _ (drop_table_lem "watchlist" _ _ refl refl refl) (
      run_next _ _ _ (drop_table_lem "cryptocurrencies" _ _ refl refl refl)
        (run_next _ _ _ (drop_table_lem "users" _ _ refl refl refl) (run_end on_top_nothing)))
