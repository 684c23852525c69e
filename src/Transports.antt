-- ===== src/Transports.antt =====
-- The two transports of the insight service: app/api/v1/endpoints/insights.py over REST, and
-- app/grpc_server/insight_servicer.py over gRPC. Who may call them is in Access.antt.
pub mod Agreement
use Prim.Native.String
use crypto_back.Prelude.{ℕ, String, List, [], ◌∷◌, map, ◌==◌, str_eq, if◌then◌else◌}
use crypto_back.Errors.{not_found_error}
use crypto_back.Exec.{ok, Exec, raise, pure, ◌>>=◌}
use crypto_back.World.{World}
use crypto_back.Redis.{Redis}
use crypto_back.Sql.{Table, Queries}
use crypto_back.PriceHistory.{PriceHistory, DeadLetter, get_history}
use crypto_back.Insight.{Texts, Price, InsightResponse, Claude, get_insight}

-- What `GetInsight` does: it answers, or aborts with a status and a detail.
pub data Reply : Type 0 where
  answer : InsightResponse → Reply
  abort : String → String → Reply

module _ {S D : Type 0} (r : Redis S) (others : ℕ → World S D → World S D)
    (t : Table PriceHistory D) (q : Queries PriceHistory D) (dead : Table DeadLetter D)
    (texts : Texts) (iso_text : ℕ → String) (claude : Claude (World S D)) where
  abbrev pub prices_of : List PriceHistory → List Price
  prices_of =
      map (λ (h : PriceHistory). record { timestamp = iso_text h.recorded_at; price = h.price })

  abbrev pub insight_for : String → List PriceHistory → Exec (World S D) InsightResponse
  insight_for external_id [] = raise (
      not_found_error (
        String.◌++◌ "No price history available for '" (
          String.◌++◌ external_id
            "'. Data may not have been collected yet — check back after the next refresh cycle.")))
  insight_for external_id (h ∷ hs) =
      get_insight r others texts claude external_id (prices_of (h ∷ hs))

  -- `get_coin_insight`
  unfoldable pub get_coin_insight : String → Exec (World S D) InsightResponse
  get_coin_insight external_id w =
      insight_for external_id (get_history t q dead external_id 30 w.now w.db) w

  abbrev pub reply_for : String → List PriceHistory → Exec (World S D) Reply
  reply_for coin_id [] =
      pure (
        abort "NOT_FOUND"
          (String.◌++◌ "No price history available for '" (String.◌++◌ coin_id "'")))
  reply_for coin_id (h ∷ hs) = do
    result ← get_insight r others texts claude coin_id (prices_of (h ∷ hs))
    pure (answer result)

  -- `GetInsight`; a request without days has 0 of them.
  unfoldable pub get_insight_rpc : String → ℕ → Exec (World S D) Reply
  get_insight_rpc coin_id days w =
      if str_eq coin_id ""
      then (ok (abort "INVALID_ARGUMENT" "coin_id is required"), w)
      else reply_for coin_id
          (get_history t q dead coin_id (if days == 0 then 30 else days) w.now w.db) w
