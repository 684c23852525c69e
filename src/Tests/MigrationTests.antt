-- ===== src/Tests/MigrationTests.antt =====
-- The migrations on a database that has the table of alembic itself.
use mathlib.Core.Option
use crypto_back.Prelude.{
  ◌≡◌, refl, ap, String, true, false, inl, inr, none, some, [], ◌∷◌, ◌++◌, Bool-cases, str_eq,
  eq_iff, arith,
}
use crypto_back.Migrations.{upgrade_initial, downgrade_initial, upgrade_history, downgrade_history}
use crypto_back.Migrations.Effects.{Schema, effect, run}
use crypto_back.Migrations.Undo.{IsClear, is_own}
use crypto_back.Migrations.Revisions.{downgrade_undoes}

abbrev fresh : Schema
fresh = record {
  tables =
      ("alembic_version", record { columns = []; primary_key = []; foreign_keys = []; unique = [] })
      ∷ [];
  indexes = [];
}

alembic_version-IsApart : (n : String) → is_own n ≡ true → str_eq "alembic_version" n ≡ false
alembic_version-IsApart n own = elim (Bool-cases (str_eq "alembic_version" n)) [
  | inl same ↦ ground (arith, own, ap is_own ((eq_iff "alembic_version" n).0 same))
  | inr apart ↦ apart
]

fresh-IsClear : IsClear fresh
fresh-IsClear = record {
  no_table = λ n own. ground (arith, alembic_version-IsApart n own);
  no_index = λ n own. refl;
  no_unique = λ n own. refl;
  no_key = λ n own. refl;
  none_on = λ n own. refl;
}

map_same : {S : Type 0} (o : Option.Option S) → Option.map (λ s. s) o ≡ o
map_same none = refl
map_same (some s) = refl

downgrade_undoes_example :
    Option.map (λ v. v) (run effect (upgrade_initial ++ downgrade_initial) fresh) ≡ some fresh
    × Option.map
        (λ v. v)
        (run effect
          (upgrade_initial ++ (upgrade_history ++ (downgrade_history ++ downgrade_initial)))
          fresh)
      ≡ some fresh
    × Option.map
        (λ v. v)
        (run effect (upgrade_initial ++ (upgrade_history ++ downgrade_history)) fresh)
      ≡ Option.map (λ v. v) (run effect upgrade_initial fresh)
downgrade_undoes_example =
    downgrade_undoes effect (λ v. v) (λ st s. map_same (effect st s)) fresh fresh-IsClear
