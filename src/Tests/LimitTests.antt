-- ===== src/Tests/LimitTests.antt =====
-- The limits of the program, in two environments.
use crypto_back.Prelude.{◌≡◌, refl, some, none, [], ◌∷◌, map}
use crypto_back.Limits.{limits, limit, scaled}
use crypto_back.Limits.Text.{str, int, split, digits, int_from}
use crypto_back.Limits.Scaled.{limit_text, limit-limit_text}

limits_development :
    map (λ (name, text). text) (limits "development")
    ≡ some "1000/minute"
      ∷ some "1000/minute"
      ∷ some "2000/minute"
      ∷ some "6000/minute"
      ∷ some "6000/minute"
      ∷ some "3000/minute"
      ∷ some "1000/minute"
      ∷ some "6000/minute"
      ∷ some "2000/minute"
      ∷ some "500/minute"
      ∷ []
unfolding limit scaled str digits int int_from split
limits_development = refl

limit_refused : limit "test" "ten/minute" ≡ none
unfolding limit scaled int int_from split
limit_refused = refl

limit-limit_text_example :
    limit "development" (limit_text 10 "minute") ≡ some (limit_text 1000 "minute")
limit-limit_text_example = limit-limit_text "development" 10 "minute" refl
