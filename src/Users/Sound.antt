-- ===== src/Users/Sound.antt =====
-- The table of users through the two queries of app/repositories/user_repo.py: what they find belongs
-- together, whatever is registered and whatever token is stored.
use crypto_back.Prelude.{
  ℕ, ◌≡◌, ◌⊎◌, refl, ◌∙◌, sym, ap, any, String, false, Bool-cases, inl, inr, Option, none, some,
  List, [], ◌∷◌, ◌++◌, keep_if, arith, eq_iff, if◌then◌else◌, ◌==◌, str_eq,
}
use crypto_back.Errors.{other_error, integrity_error}
use crypto_back.Exec.{Result, ok, err}
use crypto_back.Sql.{Table, TableLaws}
use crypto_back.Sql.Scalar.{scalar_one_or_none, map_row, scalar-append_new, scalar-append_no}
use crypto_back.Users.{User, user_clash, has_email, has_id, get_by_email, get_by_id, create}
use crypto_back.Users.Laws.{
  get_by_email-rows, get_by_id-rows, get_by_id-token_set, get_by_email-token_set, token_set, change,
  new_user,
}

module _ {D : Type 0} (t : Table User D) where
  -- Each query finds a row or none, and a user found by an address is found by their id.
  pub record IsSound (d : D) : Type 0 where
    pub email_answers : (email : String) → (o : Option User) × (get_by_email t email d ≡ ok o)
    pub id_answers : (id : ℕ) → (o : Option User) × (get_by_id t id d ≡ ok o)
    pub linked :
        (email : String) (u : User)
        → get_by_email t email d ≡ ok (some u)
        → get_by_id t u.id d ≡ ok (some u)
    pub has_id : (id : ℕ) (u : User) → get_by_id t id d ≡ ok (some u) → u.id ≡ id

  abbrev token_in : Result (Option User) → Option String
  token_in (ok (some u)) = u.refresh_token
  token_in (ok none) = none
  token_in (err e) = none

  -- The refresh token that is stored for a user.
  abbrev pub stored : ℕ → D → Option String
  stored id d = token_in (get_by_id t id d)

module _ {D : Type 0} (t : Table User D) (laws : TableLaws t user_clash) where
  map_row-ok :
      (g : User → User) (r : Result (Option User))
      → (o : Option User) × (r ≡ ok o)
      → (o : Option User) × (map_row g r ≡ ok o)
  map_row-ok g r (none, e) = (none, rw (e) refl)
  map_row-ok g r (some u, e) = (some (g u), rw (e) refl)

  unmap_row :
      (g : User → User) (r : Result (Option User)) (v : User)
      → map_row g r ≡ ok (some v)
      → (u : User) × (r ≡ ok (some u)) × (v ≡ g u)
  unmap_row g (ok none) v e = ground arith
  unmap_row g (ok (some u)) v e = (u, refl, ground arith)
  unmap_row g (err x) v e = ground arith

  pub token_set-IsSound :
      (id : ℕ) (token : Option String) (d : D)
      → IsSound t d
      → IsSound t (token_set t laws id token d)
  token_set-IsSound id token d sound =
      let g = change t laws id token in
      record {
        email_answers = λ email.
            rw (get_by_email-token_set t laws id email token d)
              (map_row-ok g (get_by_email t email d) (sound.email_answers email));
        id_answers = λ k.
            rw (get_by_id-token_set t laws id k token d)
              (map_row-ok g (get_by_id t k d) (sound.id_answers k));
        linked = λ email v e.
            let (u, found, same) =
              unmap_row g (get_by_email t email d) v
                (sym (get_by_email-token_set t laws id email token d) ∙ e) in
            let same_id : v.id ≡ u.id = ground (arith, same) in
            get_by_id-token_set t laws id v.id token d
            ∙ ap (λ (k : ℕ). map_row g (get_by_id t k d)) same_id
            ∙ ap (map_row g) (sound.linked email u found)
            ∙ ap (λ (x : User). ok (some x)) (sym same);
        has_id = λ k v e.
            let (u, found, same) =
              unmap_row g (get_by_id t k d) v (sym (get_by_id-token_set t laws id k token d) ∙ e) in
            ground (arith, sound.has_id k u found, same);
      }

  no_row :
      (u : User) (l : List User)
      → any (user_clash u) l ≡ false
      → (scalar_one_or_none (keep_if (has_email u.email) l) ≡ ok none)
        × (scalar_one_or_none (keep_if (has_id u.id) l) ≡ ok none)
  unfolding scalar_one_or_none
  no_row u [] h = (refl, refl)
  no_row u (x ∷ l) h = ground (arith, no_row u l, eq_iff u.email x.email, eq_iff x.email u.email)

  module _ (x : User) (d d' : D) (rows : t.rows d' ≡ t.rows d ++ x ∷ [])
      (clear : any (user_clash x) (t.rows d) ≡ false) where
    by_email-append :
        (email : String)
        → get_by_email t email d'
          ≡ (if str_eq x.email email then ok (some x) else get_by_email t email d)
    by_email-append email = elim (Bool-cases (str_eq x.email email)) [
      | inl same ↦
          let e : x.email ≡ email = (eq_iff x.email email).0 same in
          get_by_email-rows t laws email d'
          ∙ (rw (rows, same)
              (scalar-append_new (has_email email) x (t.rows d) same
                (rw (sym e) (no_row x (t.rows d) clear).0)))
      | inr apart ↦
          get_by_email-rows t laws email d'
          ∙ (rw (rows, apart)
              (scalar-append_no (has_email email) x (t.rows d) apart
                ∙ sym (get_by_email-rows t laws email d)))
    ]

    by_id-append :
        (id : ℕ) → get_by_id t id d' ≡ (if x.id == id then ok (some x) else get_by_id t id d)
    by_id-append id = elim (Bool-cases (x.id == id)) [
      | inl same ↦
          let e : x.id ≡ id = ground arith in
          get_by_id-rows t laws id d'
          ∙ (rw (rows, same)
              (scalar-append_new (has_id id) x (t.rows d) same
                (rw (sym e) (no_row x (t.rows d) clear).1)))
      | inr apart ↦
          get_by_id-rows t laws id d'
          ∙ (rw (rows, apart)
              (scalar-append_no (has_id id) x (t.rows d) apart ∙ sym (get_by_id-rows t laws id d)))
    ]

    no_id : get_by_id t x.id d ≡ ok none
    no_id = get_by_id-rows t laws x.id d ∙ (no_row x (t.rows d) clear).1

    append-IsSound : IsSound t d → IsSound t d'
    append-IsSound sound = record {
      email_answers = λ email.
          rw (by_email-append email) (elim (Bool-cases (str_eq x.email email)) [
            | inl same ↦ (some x, rw (same) refl)
            | inr apart ↦ rw (apart) (sound.email_answers email)
          ]);
      id_answers = λ id. rw (by_id-append id) (elim (Bool-cases (x.id == id)) [
        | inl same ↦ (some x, rw (same) refl)
        | inr apart ↦ rw (apart) (sound.id_answers id)
      ]);
      linked = λ email u e.
          ground (arith, by_email-append email, by_id-append u.id, sound.linked email u, no_id, e);
      has_id = λ id u e. ground (arith, by_id-append id, sound.has_id id u, e);
    }

    -- A new user has no token yet, as an unknown id has none.
    stored-append : x.refresh_token ≡ none → (id : ℕ) → stored t id d' ≡ stored t id d
    stored-append fresh id = ground (arith, by_id-append id, no_id, fresh)

  -- A free address is registered, or the insertion is refused and nothing changes.
  pub create_cases :
      (id now : ℕ) (email hashed role : String) (d : D)
      → IsSound t d
      → let (result, d') = create t id now email hashed role d in
        (result ≡ err (other_error integrity_error)
          ⊎ (result ≡ ok (new_user t laws id now email hashed role)))
        × IsSound t d'
        × ((k : ℕ) → stored t k d' ≡ stored t k d)
  unfolding create
  create_cases id now email hashed role d sound =
      let x = new_user t laws id now email hashed role in
      elim (Bool-cases (any (user_clash x) (t.rows d))) [
        | inl clash ↦ rw (laws.insert_refused x d clash) (inl refl, sound, λ k. refl)
        | inr clear ↦
            let (d', inserted, rows) = laws.insert_done x d clear in
            rw (inserted) (
              inr refl,
              append-IsSound x d d' rows clear sound,
              stored-append x d d' rows clear refl,
            )
      ]

  stored-change :
      (id k : ℕ) (token : String) (u : User) (d : D)
      → IsSound t d
      → get_by_id t id d ≡ ok (some u)
      → (o : Option User) → get_by_id t k d ≡ ok o
      → stored t k (token_set t laws id (some token) d)
        ≡ (if k == id then some token else stored t k d)
  stored-change id k token u d sound found none e =
      ground (arith, get_by_id-token_set t laws id k (some token) d, found, e)
  stored-change id k token u d sound found (some v) e =
      ground (arith, get_by_id-token_set t laws id k (some token) d, e, sound.has_id k v e)

  -- The token that is stored for a user whose token is set.
  pub stored-token_set :
      (id k : ℕ) (token : String) (u : User) (d : D)
      → IsSound t d
      → get_by_id t id d ≡ ok (some u)
      → stored t k (token_set t laws id (some token) d)
        ≡ (if k == id then some token else stored t k d)
  stored-token_set id k token u d sound found =
      let (o, e) = sound.id_answers k in stored-change id k token u d sound found o e
