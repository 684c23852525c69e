-- ===== src/Application/Health.antt =====
-- What a caller of `GET /health` learns (app/main.py).
use crypto_back.Prelude.{ℕ, ◌≡◌, ◌↔◌, ◌⊎◌, String, arith}
use crypto_back.Exec.{Result, ok, err}
use crypto_back.Application.{health}

-- Two outcomes of a probe that differ in the exception at most.
abbrev pub IsAlike : Result ℕ → Result ℕ → Type 0
IsAlike (ok m) (ok n) = m ≡ n
IsAlike (err e) (err f) = Unit
IsAlike a b = ⊥

abbrev pub Passes : Result ℕ → Type 0
Passes (ok latency) = Unit
Passes (err e) = ⊥

-- The status is 200 exactly if both probes pass, and 503 otherwise. Neither the status nor the body
-- tells one exception of a probe from another.
pub health_hides :
    (environment : String) (database database' redis redis' : Result ℕ)
    → IsAlike database database'
    → IsAlike redis redis'
    → let reply = health environment database redis in
      let reply' = health environment database' redis' in
      ((reply.status_code ≡ 200) ↔ (Passes database × Passes redis))
      × ((reply.status_code ≡ 200) ⊎ (reply.status_code ≡ 503))
      × (reply.status_code ≡ reply'.status_code)
      × (reply.content ≡ reply'.content)
unfolding health
health_hides environment (ok a) (ok b) (ok c) (ok d) h k = ground arith
health_hides environment (ok a) (ok b) (err c) (err d) h k = ground arith
health_hides environment (err a) (err b) (ok c) (ok d) h k = ground arith
health_hides environment (err a) (err b) (err c) (err d) h k = ground arith
health_hides environment (ok a) (err b) c d h k = absurd h
health_hides environment (err a) (ok b) c d h k = absurd h
health_hides environment a b (ok c) (err d) h k = absurd k
health_hides environment a b (err c) (ok d) h k = absurd k
