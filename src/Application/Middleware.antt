-- ===== src/Application/Middleware.antt =====
-- app/core/middleware.py: what `RequestLoggingMiddleware.dispatch` does around the rest of the
-- application, `call_next`, which is a parameter. The duration of a request is left out.
use crypto_back.Prelude.{
  ℕ, String, Bool, true, false, ◌||◌, Option, none, some, List, [], ◌∷◌, ◌++◌, ltb, str_eq,
  if◌then◌else◌,
}
use crypto_back.Prelude.Int.{ℤ}
use crypto_back.Metrics.{db_pool_size, db_pool_checked_out, db_pool_overflow}
use crypto_back.Exec.{Result, ok, err, Exec}
use crypto_back.World.{World, emit}

pub record HttpRequest : Type 0 where
  pub method : String
  pub path : String

-- `size()`, `checkedout()` and `overflow()` of a `QueuePool`; the last may be negative.
pub record Pool : Type 0 where
  pub size : ℕ
  pub checkedout : ℕ
  pub overflow : ℤ

-- A line of the log, written by `logger.warning` or `logger.info`, with the id that is bound.
pub record Line : Type 0 where
  pub is_warning : Bool
  pub request_id : Option String
  pub method : String
  pub path : String
  pub status_code : ℕ

pub record Logged (S D : Type 0) : Type 0 where
  pub world : World S D
  pub bound : Option String
  pub lines : List Line

-- `_SKIP_PATHS`
abbrev pub skipped : String → Bool
skipped path = str_eq path "/health" || str_eq path "/metrics"

abbrev pub logged_status : {A : Type 0} → (A → ℕ) → Result A → ℕ
logged_status status_of (ok response) = status_of response
logged_status status_of (err e) = 500

abbrev pub line : HttpRequest → Option String → ℕ → Line
line request bound status = record {
  is_warning = if ltb status 400 then false else true;
  request_id = bound;
  method = request.method;
  path = request.path;
  status_code = status;
}

module _ {S D : Type 0} where
  -- `_update_pool_metrics`; another kind of pool has no size, and an exception is dropped.
  unfoldable pub update_pool_metrics : Option Pool → World S D → World S D
  update_pool_metrics none w = w
  update_pool_metrics (some pool) w =
      emit (db_pool_overflow pool.overflow)
        (emit (db_pool_checked_out pool.checkedout) (emit (db_pool_size pool.size) w))

  abbrev inside : {A : Type 0} → Exec (World S D) A → Exec (Logged S D) A
  inside m g = let (r, w) = m g.world in (r, record g { world = w })

  module _ {A : Type 0} (status_of : A → ℕ) where
    -- `dispatch`; `request_id` is what `uuid4` gives.
    unfoldable pub dispatch :
        String → Option Pool → HttpRequest → Exec (World S D) A → Exec (Logged S D) A
    unfolding update_pool_metrics
    dispatch request_id pool request call_next g =
        if skipped request.path
        then inside call_next g
        else let (result, w) = call_next (update_pool_metrics pool g.world) in
          (
            result,
            record {
              world = w;
              bound = some request_id;
              lines =
                  g.lines ++ line request (some request_id) (logged_status status_of result) ∷ [];
            },
          )
