-- ===== src/Users/Laws.antt =====
-- What the queries of app/repositories/user_repo.py return after a change of the table.
use text.Mathlib.TextEquality.{IsScalar-prop}
use crypto_back.Prelude.{
  ℕ, ◌≡◌, refl, ◌∙◌, sym, any, eq_refl, String, false, Option, none, some, List, [], ◌∷◌, keep_if,
  arith, eq_iff, if◌then◌else◌,
}
use crypto_back.Exec.{ok}
use crypto_back.Sql.{Table, TableLaws}
use crypto_back.Sql.Scalar.{
  scalar_one_or_none, scalar-perm, scalar-map, map_row, scalar-append_new, with_row-ne-none,
}
use crypto_back.Users.{
  User, user_clash, has_email, has_id, get_by_email, get_by_id, set_token, create,
}

pub User-set : IsSet User
User-set = hlevel IsScalar-prop

module _ {D : Type 0} (t : Table User D) (laws : TableLaws t user_clash) where
  pub get_by_email-rows :
      (email : String) (d : D)
      → get_by_email t email d ≡ scalar_one_or_none (keep_if (has_email email) (t.rows d))
  unfolding get_by_email
  get_by_email-rows email d = scalar-perm User-set (laws.select-perm (has_email email) d)

  pub get_by_id-rows :
      (id : ℕ) (d : D) → get_by_id t id d ≡ scalar_one_or_none (keep_if (has_id id) (t.rows d))
  unfolding get_by_id
  get_by_id-rows id d = scalar-perm User-set (laws.select-perm (has_id id) d)

  abbrev pub token_set : ℕ → Option String → D → D
  token_set id token d = t.update (has_id id) (set_token t token) d

  abbrev pub change : ℕ → Option String → User → User
  change id token u = if has_id id u then set_token t token u else u

  pub get_by_id-token_set :
      (id k : ℕ) (token : Option String) (d : D)
      → get_by_id t k (token_set id token d) ≡ map_row (change id token) (get_by_id t k d)
  get_by_id-token_set id k token d =
      get_by_id-rows k (token_set id token d)
      ∙ rw (laws.rows-update (has_id id) (set_token t token) d) (
          scalar-map (has_id k) (change id token) (t.rows d) (λ u. ground arith)
          ∙ rw (get_by_id-rows k d))

  pub get_by_email-token_set :
      (id : ℕ) (email : String) (token : Option String) (d : D)
      → get_by_email t email (token_set id token d)
        ≡ map_row (change id token) (get_by_email t email d)
  get_by_email-token_set id email token d =
      get_by_email-rows email (token_set id token d)
      ∙ rw (laws.rows-update (has_id id) (set_token t token) d) (
          scalar-map (has_email email) (change id token) (t.rows d) (λ u. ground arith)
          ∙ rw (get_by_email-rows email d))

  abbrev pub new_user : ℕ → ℕ → String → String → String → User
  new_user id now email hashed role = record {
    id = id;
    email = email;
    hashed_password = hashed;
    role = role;
    refresh_token = none;
    created_at = now;
  }

  no_clash :
      (u : User) (l : List User)
      → scalar_one_or_none (keep_if (has_email u.email) l) ≡ ok none
      → scalar_one_or_none (keep_if (has_id u.id) l) ≡ ok none
      → any (user_clash u) l ≡ false
  unfolding scalar_one_or_none
  no_clash u [] h k = refl
  no_clash u (x ∷ l) h k = ground (
    arith,
    no_clash u l,
    eq_iff u.email x.email,
    eq_iff x.email u.email,
    with_row-ne-none x (scalar_one_or_none (keep_if (has_email u.email) l)),
    with_row-ne-none x (scalar_one_or_none (keep_if (has_id u.id) l)),
  )

  -- A user with a new id and a new address is stored, and is then found by both.
  pub create_lem :
      (id now : ℕ) (email hashed role : String) (d : D)
      → get_by_email t email d ≡ ok none
      → get_by_id t id d ≡ ok none
      → let (result, d') = create t id now email hashed role d in
        let u = new_user id now email hashed role in
        (result ≡ ok u)
        × (get_by_email t email d' ≡ ok (some u))
        × (get_by_id t id d' ≡ ok (some u))
  unfolding create
  create_lem id now email hashed role d h k =
      let u = new_user id now email hashed role in
      let by_email = sym (get_by_email-rows email d) ∙ h in
      let by_id = sym (get_by_id-rows id d) ∙ k in
      let (d', e, rows) = laws.insert_done u d (no_clash u (t.rows d) by_email by_id) in
      rw e (
        refl,
        get_by_email-rows email d'
            ∙ rw rows (scalar-append_new (has_email email) u (t.rows d) (eq_refl email) by_email),
        get_by_id-rows id d'
            ∙ rw rows (scalar-append_new (has_id id) u (t.rows d) (ground arith) by_id),
      )
