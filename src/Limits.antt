-- ===== src/Limits.antt =====
-- The limits of app/core/rate_limit.py. Of `str` and `int` a number and a text of digits are
-- modelled, the only ones there; a ValueError is `none`.
pub mod Text
pub mod Scaled
use Prim.Native.String
use mathlib.Core.Option
use crypto_back.Prelude.{
  ℕ, ◌*◌, String, Bool, true, false, Option, none, some, List, [], ◌∷◌, if◌then◌else◌, str_eq,
}
use crypto_back.Limits.Text.{str, int, split}

-- What a count and a period become outside production.
unfoldable pub scaled : List String → Option String
scaled (count ∷ period ∷ []) =
    Option.map (λ n. String.◌++◌ (str (n * 100)) (String.◌∷◌ "/" period)) (int count)
scaled parts = none

-- `_limit`, in an environment.
unfoldable pub limit : (environment : String) → String → Option String
limit environment prod_limit =
    if str_eq environment "production" then some prod_limit else scaled (split prod_limit)

-- `LIMITS`.
abbrev pub limits : (environment : String) → List (String × Option String)
limits environment =
    ("auth_register", limit environment "10/minute")
    ∷ ("auth_login", limit environment "10/minute")
    ∷ ("auth_refresh", limit environment "20/minute")
    ∷ ("coins_list", limit environment "60/minute")
    ∷ ("coins_detail", limit environment "60/minute")
    ∷ ("coins_history", limit environment "30/minute")
    ∷ ("coins_insight", limit environment "10/minute")
    ∷ ("watchlist_read", limit environment "60/minute")
    ∷ ("watchlist_write", limit environment "20/minute")
    ∷ ("coins_refresh", limit environment "5/minute")
    ∷ []
