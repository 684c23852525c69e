-- ===== src/Application/Requests.antt =====
-- The log of one process (app/core/middleware.py).
use mathlib.Core.List.{append-nil, append_assoc, map-append}
use crypto_back.Prelude.{
  ℕ, ◌≡◌, ◌∙◌, sym, ap, Bool-cases, inl, inr, String, Option, some, List, [], ◌∷◌, ◌++◌, map,
  if◌then◌else◌, arith,
}
use crypto_back.Exec.{Exec}
use crypto_back.World.{World}
use crypto_back.Application.Middleware.{
  HttpRequest, Pool, Line, Logged, skipped, logged_status, line, update_pool_metrics, dispatch,
}

-- What a line says of its request.
abbrev pub subject : Line → Option String × (String × String)
subject l = (l.request_id, (l.method, l.path))

-- A request with its id, the pool at its time, and what the rest of the application does with it.
pub record Arrival (S D A : Type 0) : Type 0 where
  pub request_id : String
  pub pool : Option Pool
  pub request : HttpRequest
  pub call_next : Exec (World S D) A

module _ {S D A : Type 0} where
  abbrev pub subjects : List (Arrival S D A) → List (Option String × (String × String))
  subjects [] = []
  subjects (a ∷ rest) =
      if skipped a.request.path
      then subjects rest
      else (some a.request_id, (a.request.method, a.request.path)) ∷ subjects rest

  subjects-cons :
      (a : Arrival S D A) (rest : List (Arrival S D A))
      → subjects (a ∷ []) ++ subjects rest ≡ subjects (a ∷ rest)
  subjects-cons a rest = ground arith

module _ {S D A : Type 0} (status_of : A → ℕ) where
  -- The requests of one process, one after the other.
  abbrev pub serve : List (Arrival S D A) → Logged S D → Logged S D
  serve [] g = g
  serve (a ∷ rest) g = serve rest (dispatch status_of a.request_id a.pool a.request a.call_next g).1

  line_of : Arrival S D A → Logged S D → Line
  line_of a g =
      line a.request (some a.request_id)
        (logged_status status_of (a.call_next (update_pool_metrics a.pool g.world)).0)

  dispatch-subject :
      (a : Arrival S D A) (g : Logged S D)
      → map subject (dispatch status_of a.request_id a.pool a.request a.call_next g).1.lines
        ≡ map subject g.lines ++ subjects (a ∷ [])
  unfolding dispatch line_of
  dispatch-subject a g = elim (Bool-cases (skipped a.request.path)) [
    | inl hidden ↦ rw hidden (sym (append-nil (map subject g.lines)))
    | inr shown ↦ rw shown (map-append subject g.lines (line_of a g ∷ []))
  ]

  -- Whatever the requests end with, a response or an exception, the log has one line for each that
  -- is for another path than "/health" and "/metrics", in their order, under the id of its own
  -- request.
  pub serve-subjects :
      (rest : List (Arrival S D A)) (g : Logged S D)
      → map subject (serve rest g).lines ≡ map subject g.lines ++ subjects rest
  serve-subjects [] g = sym (append-nil (map subject g.lines))
  serve-subjects (a ∷ rest) g =
      let g' = (dispatch status_of a.request_id a.pool a.request a.call_next g).1 in
      serve-subjects rest g'
      ∙ ap (λ l. l ++ subjects rest) (dispatch-subject a g)
      ∙ append_assoc (map subject g.lines) (subjects (a ∷ [])) (subjects rest)
      ∙ ap (λ l. map subject g.lines ++ l) (subjects-cons a rest)
