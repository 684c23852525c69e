-- ===== src/Auth/Sessions/History.antt =====
-- Any requests to app/services/auth_service.py, in any order and of any users.
use crypto_back.Prelude.{ℕ, ◌≡◌, refl, ◌∙◌, ap, String, List, [], ◌∷◌}
use crypto_back.World.{World}
use crypto_back.Sql.{Table, TableLaws, IsApart}
use crypto_back.Users.{User, user_clash}
use crypto_back.Users.Sound.{IsSound, stored}
use crypto_back.Users.Unique.{IsApart-IsSound}
use crypto_back.Security.{Libraries}
use crypto_back.Auth.{refresh}
use crypto_back.Auth.Sessions.{
  Call, register_call, login_call, refresh_call, serve, serve_all, note, ledger_of, accepts, is_ok,
}
use crypto_back.Auth.Sessions.Steps.{now_stored, register-Step, login-Step, refresh-Step}
use crypto_back.Auth.Sessions.Accepted.{refresh-accepts}

module _ {S D : Type 0} (t : Table User D) (laws : TableLaws t user_clash) (l : Libraries) where
  serve-IsSound :
      (call : ℕ × Call) (w : World S D) → IsSound t w.db → IsSound t (serve t l call w).1.db
  unfolding serve
  serve-IsSound (now, register_call salt id email password) w sound =
      (register-Step t laws l salt id email password (record w { now = now }) sound).sound
  serve-IsSound (now, login_call email password) w sound =
      (login-Step t laws l email password (record w { now = now }) sound).sound
  serve-IsSound (now, refresh_call token) w sound =
      (refresh-Step t laws l token (record w { now = now }) sound).sound

  serve-note :
      (call : ℕ × Call) (w : World S D)
      → IsSound t w.db
      → let (reply, w') = serve t l call w in
        now_stored t laws l w' ≡ note l call.0 reply (now_stored t laws l w)
  unfolding serve
  serve-note (now, register_call salt id email password) w sound = λ i k.
      (register-Step t laws l salt id email password (record w { now = now }) sound).noted k i
  serve-note (now, login_call email password) w sound =
      λ i k. (login-Step t laws l email password (record w { now = now }) sound).noted k i
  serve-note (now, refresh_call token) w sound =
      λ i k. (refresh-Step t laws l token (record w { now = now }) sound).noted k i

  serve_all-ledger_of :
      (calls : List (ℕ × Call)) (w : World S D)
      → IsSound t w.db
      → let (replies, w') = serve_all t l calls w in
        IsSound t w'.db × (now_stored t laws l w' ≡ ledger_of l replies (now_stored t laws l w))
  serve_all-ledger_of [] w sound = (sound, refl)
  serve_all-ledger_of (call ∷ calls) w sound =
      let (reply, w') = serve t l call w in
      let (sound', same) = serve_all-ledger_of calls w' (serve-IsSound call w sound) in
      let (replies, _) = serve_all t l calls w' in
      (sound', same ∙ ap (ledger_of l replies) (serve-note call w sound))

  -- In a database where no two users have the same id or address: after any registrations, logins and
  -- refreshes at any times a refresh token is accepted if and only if it is signed, has not expired,
  -- is of the type "refresh", and is the last one that the replies gave to the user whom it names. Of
  -- a user to whom no reply has given one, it is the one stored at the start.
  pub last_token_only :
      (calls : List (ℕ × Call)) (later : ℕ) (token : String) (w : World S D)
      → IsApart user_clash (t.rows w.db)
      → let (replies, w') = serve_all t l calls w in
        is_ok (refresh t l token (record w' { now = later })).0
        ≡ accepts l later token (ledger_of l replies (λ id. stored t id w.db))
  last_token_only calls later token w apart =
      let (replies, w') = serve_all t l calls w in
      let (sound, same) = serve_all-ledger_of calls w (IsApart-IsSound t laws w.db apart) in
      refresh-accepts t laws l token (record w' { now = later }) sound
      ∙ ap (accepts l later token) same
