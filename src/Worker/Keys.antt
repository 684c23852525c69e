-- ===== src/Worker/Keys.antt =====
-- The keys in Redis that the worker writes and deletes (app/worker/refresh_job.py).
use Prim.Native.String
use text.Mathlib.Text.{starts_with}
use text.Mathlib.TextEquality.{starts_with_iff}
use text.Mathlib.TextLemmas.{append_cancel_left, append_assoc}
use text.Mathlib.TextPositions.{slice-append_left}
use mathlib.Core.Path.{ap₂}
use crypto_back.Prelude.{
  ◌≡◌, ◌≢◌, ◌∙◌, sym, String, Bool-cases, inl, inr, false, str_eq, eq_iff, arith,
}

-- Two texts with another beginning.
pub starts_with_apart :
    (a b p q x : String)
    → String.len a ≡ String.len b
    → str_eq a b ≡ false
    → starts_with (String.◌++◌ (String.◌++◌ a p) x) (String.◌++◌ b q) ≡ false
starts_with_apart a b p q x same apart =
    elim (Bool-cases (starts_with (String.◌++◌ (String.◌++◌ a p) x) (String.◌++◌ b q))) [
      | inr e ↦ e
      | inl e ↦ absurd (
          let (u, e') = (starts_with_iff (String.◌++◌ (String.◌++◌ a p) x) (String.◌++◌ b q)).0 e in
          ground (
            arith,
            apart,
            eq_iff a b,
            sym (slice-append_left a (String.◌++◌ p x))
                ∙ ap₂ (λ s n. String.slice s 0 n)
                    (sym (append_assoc a p x) ∙ sym e' ∙ append_assoc b q u) same
                ∙ slice-append_left b (String.◌++◌ q u),
          ))
    ]

pub alias-ne :
    (e x : String)
    → String.◌++◌ "ext:" e ≢ x
    → String.◌++◌ "coins:detail:ext:" e ≢ String.◌++◌ "coins:detail:" x
alias-ne e x apart p =
    apart (append_cancel_left "coins:detail:" _ _ (sym (append_assoc "coins:detail:" "ext:" e) ∙ p))
