-- ===== src/RefreshEndpoint.antt =====
-- `refresh_cryptocurrencies` of app/api/v1/endpoints/cryptocurrencies.py, for a caller whose API key
-- is right, and its background task. The reply is always 202; the value says whether a task is
-- started. Of the database the task keeps its own changes, or on an exception what it started with.
pub mod Markers
pub mod Stale
use crypto_back.Prelude.{ℕ, String, Bool, true, false, Option, none, some, if◌then◌else◌}
use crypto_back.Json.{Json, str, obj, end, field, truthy}
use crypto_back.Errors.{Error}
use crypto_back.Exec.{Result, ok, err}
use crypto_back.World.{World}
use crypto_back.Redis.{Redis}
use crypto_back.Sql.{Table, Queries}
use crypto_back.Coins.{Cryptocurrency}
use crypto_back.Provider.{Client}
use crypto_back.Idempotency.{check_idempotency, store_idempotency}
use crypto_back.CoinService.{CoinTexts, refresh_coins}

-- `{"status": ...}`
abbrev pub status : String → Json
status name = obj (field "status" (str name) end)

module _ {S D : Type 0} (r : Redis S) where
  abbrev pub mark : Option String → String → World S D → World S D
  mark key name w = record w { store = store_idempotency r key (status name) 30 w.store }

  abbrev on_marker : Option Json → Option String → World S D → Bool × World S D
  on_marker none key w = (true, mark key "pending" w)
  on_marker (some j) key w = if truthy j then (false, w) else (true, mark key "pending" w)

  unfoldable pub refresh_cryptocurrencies : Option String → World S D → Bool × World S D
  refresh_cryptocurrencies key w = on_marker (check_idempotency r key w.store) key w

-- `await db.commit()` after a refresh that has not raised; a database may refuse it.
abbrev pub committed : (refused : Option Error) → Result ℕ → Result ℕ
committed (some e) (ok count) = err e
committed none (ok count) = ok count
committed refused (err e) = err e

module _ {S D : Type 0} (r : Redis S) (others : ℕ → World S D → World S D)
    (t : Table Cryptocurrency D) (q : Queries Cryptocurrency D) (texts : CoinTexts)
    (client : Client (World S D)) where
  -- The `else` and `except` clauses of `_run`.
  abbrev pub settle : Option String → D → Result ℕ → World S D → World S D
  settle key before (ok count) w = mark r key "completed" w
  settle key before (err e) w = mark r key "failed" (record w { db = before })

  -- `_run`
  unfoldable pub run_task :
      (refused : Option Error) → (ℕ → ℕ) → Option String → World S D → World S D
  run_task refused draw key w =
      let (result, w') = refresh_coins r others t q texts (some client) draw w in
      settle key w.db (committed refused result) w'
