-- ===== src/Auth/Sessions/Steps.antt =====
-- One request to app/services/auth_service.py, and the tokens that are stored.
use crypto_back.Prelude.{
  ℕ, ◌≡◌, refl, ◌∙◌, ap, String, Bool-cases, inl, inr, Option, none, some, arith,
}
use crypto_back.Exec.{Result, ok, err, Exec, lift, ◌>>=◌}
use crypto_back.Metrics.{auth_attempts, token_refresh_total}
use crypto_back.World.{World, emit}
use crypto_back.Sql.{Table, TableLaws}
use crypto_back.Users.{User, user_clash, get_by_email, get_by_id, update_refresh_token}
use crypto_back.Users.Laws.{token_set}
use crypto_back.Users.Sound.{IsSound, stored, token_set-IsSound, create_cases, stored-token_set}
use crypto_back.Security.{
  Libraries, Claims, refresh_claims, create_refresh_token, create_access_token, decode_token,
  verify_password, hash_password,
}
use crypto_back.Auth.{
  TokenResponse, register, login, refresh, login_as, refresh_as, refresh_payload, refresh_subject,
  subject_of, as_uuid, has_type, token_is, register_free,
}
use crypto_back.Auth.Sessions.{Reply, user, tokens, reply_as, note, owner, Ledger}

-- A new token names its user.
owner-create_refresh_token :
    (l : Libraries) (now id : ℕ)
    → owner l (l.decode now (create_refresh_token l now (l.uuid_text id))) ≡ some id
unfolding create_refresh_token
owner-create_refresh_token l now id =
    ground (arith, l.decode-encode now (refresh_claims l now (l.uuid_text id)), l.uuid_of-text id)

module _ {S D : Type 0} (t : Table User D) (laws : TableLaws t user_clash) (l : Libraries) where
  abbrev pub now_stored : World S D → Ledger
  now_stored w k = stored t k w.db

  -- What a method leaves: a table whose tokens are those of the ledger after its reply.
  pub record Step {A : Type 0} (read : A → Reply) (m : Exec (World S D) A) (w : World S D)
      : Type 0 where
    pub sound : IsSound t (m w).1.db
    pub noted :
        (k : ℕ) → now_stored (m w).1 k ≡ note l w.now (reply_as read (m w).0) (now_stored w) k

  bind-Step :
      {A B : Type 0} (read : B → Reply) (r : Result A) (f : A → Exec (World S D) B) (w : World S D)
      → IsSound t w.db
      → ((a : A) → r ≡ ok a → Step read (f a) w)
      → Step read (lift r >>= f) w
  bind-Step read (ok a) f w sound step = record {
    sound = (step a refl).sound;
    noted = (step a refl).noted;
  }
  bind-Step read (err e) f w sound step = record { sound = sound; noted = λ k. refl }

  -- Methods that do the same in a state.
  at-Step :
      {A : Type 0} (read : A → Reply) (m n : Exec (World S D) A) (w : World S D)
      → m w ≡ n w
      → Step read n w
      → Step read m w
  at-Step read m n w e step = record {
    sound = rw (e) step.sound;
    noted = λ k. rw (e) (step.noted k);
  }

  abbrev new_token : User → World S D → String
  new_token u w = create_refresh_token l w.now (l.uuid_text u.id)

  abbrev issued : User → World S D → TokenResponse
  issued u w = record {
    access_token = create_access_token l w.now (l.uuid_text u.id) u.role;
    refresh_token = new_token u w;
  }

  abbrev renewed : User → World S D → World S D
  renewed u w = record w { db = token_set t laws u.id (some (new_token u w)) w.db }

  -- Both tokens are issued to a user of the table, who is left with the new refresh token.
  issues-Step :
      (u : User) (m : Exec (World S D) TokenResponse) (w w' : World S D)
      → IsSound t w.db
      → get_by_id t u.id w.db ≡ ok (some u)
      → m w ≡ (ok (issued u w), w')
      → w'.db ≡ token_set t laws u.id (some (new_token u w)) w.db
      → Step tokens m w
  issues-Step u m w w' sound found e db = record {
    sound = rw (e, db) (token_set-IsSound t laws u.id (some (new_token u w)) w.db sound);
    noted = λ k.
        rw (e, db, owner-create_refresh_token l w.now u.id)
          (stored-token_set t laws u.id k (new_token u w) u w.db sound found);
  }

  login_as-Step :
      (email password : String) (w : World S D)
      → IsSound t w.db
      → (o : Option User) → get_by_email t email w.db ≡ ok o
      → Step tokens (login_as t l password o) w
  unfolding login_as update_refresh_token
  login_as-Step email password w sound none e = record { sound = sound; noted = λ k. refl }
  login_as-Step email password w sound (some u) e =
      let found = sound.linked email u e in
      elim (Bool-cases (verify_password l password u.hashed_password)) [
        | inl good ↦
            issues-Step u (login_as t l password (some u)) w
              (emit (auth_attempts "success") (renewed u w)) sound found (rw (good, found) refl)
              refl
        | inr bad ↦ record { sound = rw (bad) sound; noted = λ k. rw (bad) refl }
      ]

  pub login-Step :
      (email password : String) (w : World S D)
      → IsSound t w.db
      → Step tokens (login t l email password) w
  unfolding login
  login-Step email password w sound =
      at-Step tokens (login t l email password)
        (lift (get_by_email t email w.db) >>= login_as t l password) w refl
        (bind-Step tokens (get_by_email t email w.db) (login_as t l password) w sound
          (login_as-Step email password w sound))

  refresh_as-Step :
      (token : String) (id : ℕ) (w : World S D)
      → IsSound t w.db
      → (o : Option User) → get_by_id t id w.db ≡ ok o
      → Step tokens (refresh_as t l token o) w
  unfolding update_refresh_token
  refresh_as-Step token id w sound none e = record { sound = sound; noted = λ k. refl }
  refresh_as-Step token id w sound (some u) e =
      let found : get_by_id t u.id w.db ≡ ok (some u) =
        ap (λ (k : ℕ). get_by_id t k w.db) (sound.has_id id u e) ∙ e in
      elim (Bool-cases (token_is token u)) [
        | inl same ↦
            issues-Step u (refresh_as t l token (some u)) w
              (emit (token_refresh_total "success") (renewed u w)) sound found
              (rw (same, found) refl) refl
        | inr other ↦ record { sound = rw (other) sound; noted = λ k. rw (other) refl }
      ]

  refresh_subject-Step :
      (token : String) (payload : Claims) (w : World S D)
      → IsSound t w.db
      → Step tokens (refresh_subject t l token payload) w
  refresh_subject-Step token payload w sound =
      bind-Step tokens (subject_of payload) _ w sound (λ sub _.
        bind-Step tokens (as_uuid l sub) _ w sound (λ id _.
          at-Step tokens _ (lift (get_by_id t id w.db) >>= refresh_as t l token) w refl (
            bind-Step tokens (get_by_id t id w.db) (refresh_as t l token) w sound
              (refresh_as-Step token id w sound))))

  pub refresh-Step :
      (token : String) (w : World S D) → IsSound t w.db → Step tokens (refresh t l token) w
  unfolding refresh
  refresh-Step token w sound =
      at-Step tokens (refresh t l token)
        (lift (decode_token l w.now token) >>= refresh_payload t l token) w refl
        (bind-Step tokens (decode_token l w.now token) (refresh_payload t l token) w sound
          (λ payload _. elim (Bool-cases (has_type "refresh" payload)) [
            | inl good ↦ rw (good) (refresh_subject-Step token payload w sound)
            | inr bad ↦ record { sound = rw (bad) sound; noted = λ k. rw (bad) refl }
          ]))

  register_free-Step :
      (salt id : ℕ) (email password : String) (w : World S D)
      → IsSound t w.db
      → (o : Option User) → Step user (register_free t l salt id email password o) w
  register_free-Step salt id email password w sound none =
      let (result, sound', same) =
        create_cases t laws id w.now email (hash_password l salt password) "user" w.db sound in
      record {
        sound = sound';
        noted = λ k. elim result [
          | inl refused ↦ rw (refused) (same k)
          | inr made ↦ rw (made) (same k)
        ];
      }
  register_free-Step salt id email password w sound (some u) = record {
    sound = sound;
    noted = λ k. refl;
  }

  pub register-Step :
      (salt id : ℕ) (email password : String) (w : World S D)
      → IsSound t w.db
      → Step user (register t l salt id email password) w
  unfolding register
  register-Step salt id email password w sound =
      at-Step user (register t l salt id email password)
        (lift (get_by_email t email w.db) >>= register_free t l salt id email password) w refl
        (bind-Step user (get_by_email t email w.db) (register_free t l salt id email password) w
          sound (λ o _. register_free-Step salt id email password w sound o))
