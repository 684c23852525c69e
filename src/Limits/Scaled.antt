-- ===== src/Limits/Scaled.antt =====
-- The limits of app/core/rate_limit.py in an environment that is not production.
use Prim.Native.String
use crypto_back.Prelude.{ℕ, ◌*◌, ◌≡◌, refl, String, true, some, str_eq, if◌then◌else◌, arith}
use crypto_back.Limits.{limit, scaled}
use crypto_back.Limits.Text.{str, split, no_slash, no_slash-str, int-str, split_joined}

abbrev pub limit_text : ℕ → String → String
limit_text count period = String.◌++◌ (str count) (String.◌∷◌ "/" period)

scaled-split :
    (count : ℕ) (period : String)
    → no_slash period ≡ true
    → scaled (split (limit_text count period)) ≡ some (limit_text (count * 100) period)
unfolding scaled
scaled-split count period plain =
    rw (split_joined (str count) period (no_slash-str count) plain, int-str count) refl

-- A limit of any count per a period whose text has no slash is read without an error: in production
-- it stays as it is, and in every other environment it is the hundredfold count per the same period.
pub limit-limit_text :
    (environment : String) (count : ℕ) (period : String)
    → no_slash period ≡ true
    → limit environment (limit_text count period)
      ≡ some (
          if str_eq environment "production"
          then limit_text count period
          else limit_text (count * 100) period)
unfolding limit
limit-limit_text environment count period plain = ground (arith, scaled-split count period plain)
