-- ===== src/Migrations/Revisions.antt =====
-- The revisions of alembic/versions, given to a database one after the other.
use mathlib.Core.Option
use crypto_back.Prelude.{◌≡◌, ◌∙◌, refl, sym, Option, none, some, List, [], ◌∷◌, ◌++◌}
use crypto_back.Migrations.{
  Statement, upgrade_initial, downgrade_initial, upgrade_history, downgrade_history,
}
use crypto_back.Migrations.Effects.{Schema, effect, run}
use crypto_back.Migrations.Undo.{
  IsClear, upgrade_initial_lem, upgrade_history_lem, downgrade_history_lem, downgrade_initial_lem,
}

bind-bind :
    {S : Type 0} (o : Option S) {f : S → Option S} (g h : S → Option S)
    → ((s : S) → f s ≡ Option.bind (g s) h)
    → Option.bind o f ≡ Option.bind (Option.bind o g) h
unfolding Option.bind
bind-bind none g h e = refl
bind-bind (some s) g h e = e s

run-append :
    {S : Type 0} (give : Statement → S → Option S) (before after : List Statement) (s : S)
    → run give (before ++ after) s ≡ Option.bind (run give before s) (run give after)
unfolding run Option.bind
run-append give [] after s = refl
run-append give (st ∷ before) after s =
    bind-bind (give st s) (run give before) (run give after) (run-append give before after)

run_then :
    (before after : List Statement) (v : Schema) {w x : Schema}
    → run effect before v ≡ some w
    → run effect after w ≡ some x
    → run effect (before ++ after) v ≡ some x
unfolding Option.bind
run_then before after v e rest = run-append effect before after v ∙ (rw (e) rest)

module _ {S : Type 0} (give : Statement → S → Option S) (view : S → Schema)
    (give-effect : (st : Statement) (s : S)
      → Option.map view (give st s) ≡ effect st (view s)) where
  bind-run :
      (sts : List Statement) (o : Option S) (p : Option Schema)
      → Option.map view o ≡ p
      → ((s : S) → Option.map view (run give sts s) ≡ run effect sts (view s))
      → Option.map view (Option.bind o (run give sts)) ≡ Option.bind p (run effect sts)
  unfolding Option.bind
  bind-run sts none p e seen = rw (sym e) refl
  bind-run sts (some s) p e seen = seen s ∙ (rw (sym e) refl)

  map-run :
      (sts : List Statement) (s : S) → Option.map view (run give sts s) ≡ run effect sts (view s)
  unfolding run
  map-run [] s = refl
  map-run (st ∷ sts) s =
      bind-run sts (give st s) (effect st (view s)) (give-effect st s) (map-run sts)

  -- If what is seen of the database after a statement is what PostgreSQL documents, and nothing in it
  -- has a name of the migrations or refers to one: the first revision goes up and down without a
  -- refusal and leaves what was there; so do both, down in the opposite order; and after the second
  -- is taken back the database is that of the first.
  pub downgrade_undoes :
      (s : S)
      → IsClear (view s)
      → Option.map view (run give (upgrade_initial ++ downgrade_initial) s) ≡ some (view s)
        × Option.map view (
            run give
              (upgrade_initial ++ (upgrade_history ++ (downgrade_history ++ downgrade_initial)))
              s)
          ≡ some (view s)
        × Option.map view (run give (upgrade_initial ++ (upgrade_history ++ downgrade_history)) s)
          ≡ Option.map view (run give upgrade_initial s)
  downgrade_undoes s clear =
      let up = upgrade_initial_lem clear in
      let up_again = upgrade_history_lem clear in
      let back = downgrade_history_lem clear in
      let down = downgrade_initial_lem clear in
      (
        map-run _ s ∙ run_then upgrade_initial downgrade_initial _ up down,
        map-run _ s
            ∙ run_then upgrade_initial _ _ up
                (run_then upgrade_history _ _ up_again (run_then downgrade_history _ _ back down)),
        map-run _ s
            ∙ run_then upgrade_initial _ _ up (run_then upgrade_history _ _ up_again back)
            ∙ sym (map-run upgrade_initial s ∙ up),
      )
