-- ===== src/Tests/AuthTests.antt =====
-- The accounts of app/services/auth_service.py.
use crypto_back.Prelude.{ℕ, ◌≡◌, refl, String, some, List, [], ◌∷◌, arith}
use crypto_back.Exec.{Result, ok}
use crypto_back.World.{World}
use crypto_back.Redis.Memory.{Memory}
use crypto_back.Sql.{Table}
use crypto_back.Sql.Scalar.{scalar_one_or_none}
use crypto_back.Sql.Memory.{memory_table, memory_table-TableLaws}
use crypto_back.Users.{User, user_clash, get_by_id}
use crypto_back.Security.{create_access_token, create_refresh_token}
use crypto_back.Auth.{TokenResponse, refresh}
use crypto_back.Auth.Rotation.{rotation_within_second}
use crypto_back.Tests.Tokens.{ticks, codec}
use crypto_back.Tests.Samples.{world}

abbrev pub W : Type 0
W = World Memory (List User)

abbrev pub users : Table User (List User)
users = memory_table user_clash

abbrev pub token_of : ℕ → String
token_of issued = create_refresh_token codec issued (ticks 1)

abbrev pub alice : ℕ → User
alice issued = record {
  id = 1;
  email = "a@example.com";
  hashed_password = "password1";
  role = "user";
  refresh_token = some (token_of issued);
  created_at = 0;
}

abbrev pub nobody : W
nobody = world [] []

abbrev late : W
late = record (world [] (alice 2000000 ∷ [])) { now = 20000000 }

abbrev soon : W
soon = record (world [] (alice 5000000 ∷ [])) { now = 5400000 }

soon-found : get_by_id users 1 soon.db ≡ ok (some (alice 5000000))
unfolding get_by_id scalar_one_or_none
soon-found = refl

rotation_within_second_example :
    let reply : Result TokenResponse = ok (record {
      access_token = create_access_token codec 5400000 (ticks 1) "user";
      refresh_token = token_of 5000000;
    }) in
    ((refresh users codec (token_of 5000000) soon).0 ≡ reply)
    × ((refresh users codec (token_of 5000000) (refresh users codec (token_of 5000000) soon).1).0
        ≡ reply)
rotation_within_second_example =
    rotation_within_second users (memory_table-TableLaws user_clash) codec (alice 5000000) 5000000
      soon soon-found refl (omega arith) (omega arith)
