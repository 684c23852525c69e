-- ===== src/Users.antt =====
-- The users: `class User` of app/models/user.py, and app/repositories/user_repo.py over the table of
-- users. An id is a number that stands for a UUID.
pub mod Laws
pub mod Sound
pub mod Unique
use crypto_back.Prelude.{ℕ, String, Bool, ◌||◌, Option, none, some, ◌==◌, str_eq, if◌then◌else◌}
use crypto_back.Exec.{Result, ok, err, Exec, raise, pure, modify, lift, ◌>>=◌}
use crypto_back.Sql.{Table}
use crypto_back.Sql.Scalar.{scalar_one_or_none}

pub record User : Type 0 where
  pub id : ℕ
  pub email : String
  pub hashed_password : String
  pub role : String
  pub refresh_token : Option String
  pub created_at : ℕ

-- The primary key, and the unique column.
abbrev pub user_clash : User → User → Bool
user_clash x y = (x.id == y.id) || str_eq x.email y.email

abbrev pub has_email : String → User → Bool
has_email email u = str_eq u.email email

abbrev pub has_id : ℕ → User → Bool
has_id id u = u.id == id

module _ {D : Type 0} (t : Table User D) where
  unfoldable pub get_by_email : String → D → Result (Option User)
  get_by_email email d = scalar_one_or_none (t.select (has_email email) d)

  unfoldable pub get_by_id : ℕ → D → Result (Option User)
  get_by_id user_id d = scalar_one_or_none (t.select (has_id user_id) d)

  abbrev inserted : User → D → Result D → Result User × D
  inserted u d (ok d') = (ok u, d')
  inserted u d (err e) = (err e, d)

  -- `new_id` is what `uuid.uuid4()` gives, and `now` what the server's `now()` does.
  unfoldable pub create : ℕ → ℕ → String → String → String → Exec D User
  unfolding inserted
  create new_id now email hashed_password role d =
      let u : User = record {
        id = new_id;
        email = email;
        hashed_password = hashed_password;
        role = role;
        refresh_token = none;
        created_at = now;
      } in
      inserted u d (t.insert u d)

  abbrev pub set_token : Option String → User → User
  set_token token u = record u { refresh_token = token }

  abbrev write_token : ℕ → Option String → Option User → Exec D Unit
  write_token user_id token none = pure tt
  write_token user_id token (some u) = modify (t.update (has_id user_id) (set_token token))

  unfoldable pub update_refresh_token : ℕ → Option String → Exec D Unit
  unfolding write_token
  update_refresh_token user_id token d =
      (lift (get_by_id user_id d) >>= write_token user_id token) d
