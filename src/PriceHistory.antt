-- ===== src/PriceHistory.antt =====
-- app/models/price_history.py and app/repositories/price_history_repo.py. Of a row the columns that the
-- database fills and nothing reads, its id and the time of its creation, are left out.
pub mod Window
use Prim.Native.String
use crypto_back.Prelude.{
  ℕ, zero, suc, ◌+◌, ◌*◌, String, Bool, false, not, ◌&&◌, List, leb, ltb, length, str_eq,
  if◌then◌else◌,
}
use crypto_back.Prelude.Int.{ℤ}
use crypto_back.Exec.{Result, ok, err, Exec}
use crypto_back.Sql.{Table, Queries}

pub record PriceHistory : Type 0 where
  pub external_id : String
  pub price : ℤ
  pub recorded_at : ℕ

-- `RefreshDeadLetter`
pub record DeadLetter : Type 0 where
  pub batch_page : ℕ
  pub error : String
  pub retries : ℕ
  pub resolved : Bool

-- `timedelta(days=days)`, in microseconds
abbrev pub days_long : ℕ → ℕ
days_long days = days * 86400000000

-- `recorded_at >= now - timedelta(days=days)`
abbrev pub is_since : ℕ → ℕ → PriceHistory → Bool
is_since now days h = leb now (h.recorded_at + days_long days)

abbrev pub in_window : String → ℕ → ℕ → PriceHistory → Bool
in_window external_id now days h = str_eq h.external_id external_id && is_since now days h

-- `.order_by(PriceHistory.recorded_at.asc())`
abbrev pub recorded_before : PriceHistory → PriceHistory → Bool
recorded_before x y = leb x.recorded_at y.recorded_at

abbrev pub inserted : {D : Type 0} → D → Result D → Result (Unit {0}) × D
inserted d (ok d') = (ok tt, d')
inserted d (err e) = (err e, d)

-- `error[:n]`
unfoldable pub first_chars : ℕ → String → String
first_chars zero s = ""
first_chars (suc n) String.[] = ""
first_chars (suc n) (String.◌∷◌ c s) = String.◌∷◌ c (first_chars n s)

module _ {D : Type 0} (t : Table PriceHistory D) (q : Queries PriceHistory D)
    (dead : Table DeadLetter D) where
  unfoldable pub append_price_snapshot : String → ℤ → ℕ → Exec D Unit
  append_price_snapshot external_id price recorded_at d =
      let row : PriceHistory = record {
        external_id = external_id;
        price = price;
        recorded_at = recorded_at;
      } in
      inserted d (t.insert row d)

  unfoldable pub get_history : String → ℕ → ℕ → D → List PriceHistory
  get_history external_id days now d = q.ordered (in_window external_id now days) recorded_before d

  -- `delete(...).where(recorded_at < cutoff)`, and how many rows it met
  unfoldable pub purge_old_history : ℕ → ℕ → Exec D ℕ
  purge_old_history keep_days now d =
      let old = λ (h : PriceHistory). not (is_since now keep_days h) in
      (ok (length (t.select old d)), t.delete old d)

  unfoldable pub write_dead_letter : ℕ → String → Exec D Unit
  unfolding first_chars
  write_dead_letter batch_page error d =
      let row : DeadLetter = record {
        batch_page = batch_page;
        error = first_chars 2000 error;
        retries = 0;
        resolved = false;
      } in
      inserted d (dead.insert row d)
