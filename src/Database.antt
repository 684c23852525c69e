-- ===== src/Database.antt =====
-- `get_db` of app/db/database.py, around a handler that works on its session. Of the database the
-- others see what is committed; the result is how the generator ends, since the framework decides
-- what a client is told.
pub mod Replay
use crypto_back.Prelude.{Option, none, some}
use crypto_back.Errors.{Error}
use crypto_back.Exec.{Result, ok, err, Exec}
use crypto_back.World.{World}

module _ {S D A : Type 0} where
  -- `await session.commit()`, which may raise, and the `except` clause of both.
  abbrev close : Option Error → D → Result A → World S D → Result A × World S D
  close refused before (ok a) w = elim refused [
    | none ↦ (ok a, w)
    | some e ↦ (err e, record w { db = before })
  ]
  close refused before (err e) w = (err e, record w { db = before })

  unfoldable pub get_db : Option Error → Exec (World S D) A → Exec (World S D) A
  unfolding close
  get_db refused handler w = let (result, w') = handler w in close refused w.db result w'
