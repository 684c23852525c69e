-- ===== src/Tests/SessionTests.antt =====
-- Which refresh token is accepted, after a registration and two logins.
use crypto_back.Prelude.{ℕ, ◌≡◌, List, [], ◌∷◌}
use crypto_back.Sql.Memory.{memory_table-TableLaws}
use crypto_back.Users.{user_clash}
use crypto_back.Users.Sound.{stored}
use crypto_back.Auth.{refresh}
use crypto_back.Auth.Sessions.{
  Call, register_call, login_call, serve_all, ledger_of, accepts, is_ok,
}
use crypto_back.Auth.Sessions.History.{last_token_only}
use crypto_back.Tests.Tokens.{codec}
use crypto_back.Tests.AuthTests.{users, nobody, token_of}

abbrev calls : List (ℕ × Call)
calls =
    (1000000, register_call 7 1 "a@example.com" "password1")
    ∷ (2000000, login_call "a@example.com" "password1")
    ∷ (9000000, login_call "a@example.com" "password1")
    ∷ []

last_token_only_example :
    let (replies, w') = serve_all users codec calls nobody in
    is_ok (refresh users codec (token_of 9000000) (record w' { now = 10000000 })).0
    ≡ accepts codec 10000000 (token_of 9000000) (ledger_of codec replies (λ id. stored users id []))
last_token_only_example =
    last_token_only users (memory_table-TableLaws user_clash) codec calls 10000000
      (token_of 9000000) nobody tt
