-- ===== src/Transports/Agreement.antt =====
-- Whether the two transports of the insight service answer alike.
use crypto_back.Prelude.{ℕ, ◌≡◌, refl, String, false, List, [], ◌∷◌, str_eq}
use crypto_back.Errors.{Error, class_of, not_found}
use crypto_back.Exec.{Result, ok, err, continue, pure}
use crypto_back.World.{World}
use crypto_back.Redis.{Redis}
use crypto_back.Sql.{Table, Queries}
use crypto_back.PriceHistory.{PriceHistory, DeadLetter, get_history}
use crypto_back.Insight.{Texts, InsightResponse, Claude, get_insight}
use crypto_back.Transports.{
  Reply, answer, abort, prices_of, insight_for, reply_for, get_coin_insight, get_insight_rpc,
}

-- What a gRPC client gets where a REST client gets `result`.
pub data IsSame : Result InsightResponse → Result Reply → Type 0 where
  same_answer : (x : InsightResponse) → IsSame (ok x) (ok (answer x))
  same_error : (e : Error) → IsSame (err e) (err e)
  both_not_found :
      (e : Error) (detail : String)
      → class_of e ≡ not_found
      → IsSame (err e) (ok (abort "NOT_FOUND" detail))

module _ {S D : Type 0} (r : Redis S) (others : ℕ → World S D → World S D)
    (t : Table PriceHistory D) (q : Queries PriceHistory D) (dead : Table DeadLetter D)
    (texts : Texts) (iso_text : ℕ → String) (claude : Claude (World S D)) where
  answered :
      (o : Result InsightResponse) (w : World S D)
      → let (reply, w') = continue o (λ x. pure (answer x)) w in IsSame o reply × (w' ≡ w)
  answered (ok x) w = (same_answer x, refl)
  answered (err e) w = (same_error e, refl)

  by_rows :
      (coin_id : String) (rows : List PriceHistory) (w : World S D)
      → let rest = insight_for r others t q dead texts iso_text claude coin_id rows w in
        let rpc = reply_for r others t q dead texts iso_text claude coin_id rows w in
        IsSame rest.0 rpc.0 × (rpc.1 ≡ rest.1)
  unfolding class_of
  by_rows coin_id [] w = (both_not_found _ _ refl, refl)
  by_rows coin_id (h ∷ hs) w =
      let (result, w') =
        get_insight r others texts claude coin_id
          (prices_of r others t q dead texts iso_text claude (h ∷ hs)) w in
      answered result w'

  -- A gRPC request that names a coin and no days is answered as the REST request for that coin: with
  -- the same insight, with the same exception, or with NOT_FOUND where REST raises `NotFoundError`;
  -- and it leaves the same state.
  pub get_insight_rpc-get_coin_insight :
      (coin_id : String) (w : World S D)
      → str_eq coin_id "" ≡ false
      → let rest = get_coin_insight r others t q dead texts iso_text claude coin_id w in
        let rpc = get_insight_rpc r others t q dead texts iso_text claude coin_id 0 w in
        IsSame rest.0 rpc.0 × (rpc.1 ≡ rest.1)
  unfolding get_coin_insight get_insight_rpc
  get_insight_rpc-get_coin_insight coin_id w named =
      rw named (by_rows coin_id (get_history t q dead coin_id 30 w.now w.db) w)
