-- ===== src/Breaker/Block.antt =====
-- `async with breaker: body` (app/core/circuit_breaker.py), over a state that holds the breaker. While
-- the body waits, other tasks may change that state, the breaker included.
use crypto_back.Prelude.{ℕ, ◌≡◌, Option, none, some, arith}
use crypto_back.Errors.{Error}
use crypto_back.Exec.{Result, err, error_of, Exec}
use crypto_back.Breaker.{closed, CircuitBreaker, aenter, aexit}

pub record Access (W : Type 0) : Type 0 where
  pub breaker : W → CircuitBreaker
  pub put : CircuitBreaker → W → W
  pub monotonic : W → ℕ

module _ {W A : Type 0} (a : Access W) where
  unfoldable pub leave_block : Result A × W → Result A × W
  unfolding aexit
  leave_block (r, w) = (r, a.put (aexit (a.monotonic w) (error_of r) (a.breaker w)) w)

  abbrev pub enter_block : Option Error → Exec W A → Exec W A
  unfolding leave_block
  enter_block none body w = leave_block (body w)
  enter_block (some e) body w = (err e, w)

  unfoldable pub async_with : Exec W A → Exec W A
  unfolding aenter leave_block enter_block
  async_with body w =
      let (refused, cb) = aenter (a.monotonic w) (a.breaker w) in
      enter_block refused body (a.put cb w)

  -- A closed breaker lets the body run, and takes its outcome.
  pub async_with_closed :
      (body : Exec W A) (w : W)
      → (a.breaker w).state ≡ closed
      → async_with body w ≡ leave_block (body (a.put (a.breaker w) w))
  unfolding async_with
  async_with_closed body w c = ground arith
