-- ===== src/Auth/Accounts.antt =====
-- Registering and logging in (app/services/auth_service.py).
use crypto_back.Prelude.{ℕ, ◌≡◌, String, true, none, some, arith}
use crypto_back.Exec.{ok}
use crypto_back.World.{World}
use crypto_back.Sql.{Table, TableLaws}
use crypto_back.Users.{User, user_clash, get_by_email, get_by_id, update_refresh_token}
use crypto_back.Users.Laws.{new_user, create_lem}
use crypto_back.Security.{
  Libraries, hash_password, verify_password, create_access_token, create_refresh_token,
}
use crypto_back.Auth.{register, login}

module _ {S D : Type 0} (t : Table User D) (laws : TableLaws t user_clash) (l : Libraries) where
  module _ (salt id : ℕ) (email password : String) (w : World S D)
      (free : get_by_email t email w.db ≡ ok none) (new : get_by_id t id w.db ≡ ok none) where
    abbrev pub registered : User
    registered = new_user t laws id w.now email (hash_password l salt password) "user"

    pub register_free_lem :
        let (result, w') = register t l salt id email password w in
        (result ≡ ok registered)
        × (get_by_email t email w'.db ≡ ok (some registered))
        × (get_by_id t id w'.db ≡ ok (some registered))
        × (w'.now ≡ w.now)
    unfolding register
    register_free_lem =
        ground (
          arith,
          free,
          create_lem t laws id w.now email (hash_password l salt password) "user" w.db,
        )

    pub login_ok :
        (v : World S D) (u : User)
        → get_by_email t email v.db ≡ ok (some u)
        → get_by_id t u.id v.db ≡ ok (some u)
        → verify_password l password u.hashed_password ≡ true
        → (login t l email password v).0
          ≡ ok (record {
            access_token = create_access_token l v.now (l.uuid_text u.id) u.role;
            refresh_token = create_refresh_token l v.now (l.uuid_text u.id);
          })
    unfolding login update_refresh_token
    login_ok v u h k good = ground arith
