-- ===== src/Auth/Sessions/Accepted.antt =====
-- `AuthService.refresh` (app/services/auth_service.py) accepts the token that is stored.
use crypto_back.Prelude.{
  ℕ, ◌≡◌, refl, ◌∙◌, ap, String, Bool-cases, Option-cases, inl, inr, Option, none, some, arith,
}
use crypto_back.Exec.{ok}
use crypto_back.World.{World}
use crypto_back.Sql.{Table, TableLaws}
use crypto_back.Users.{User, user_clash, get_by_id, update_refresh_token}
use crypto_back.Users.Sound.{IsSound}
use crypto_back.Security.{Libraries, Claims, decode_token}
use crypto_back.Auth.{refresh, refresh_as, refresh_payload, has_type}
use crypto_back.Auth.Sessions.{is_ok, is_last, accepts, accepts_claims}
use crypto_back.Auth.Sessions.Steps.{now_stored}

module _ {S D : Type 0} (t : Table User D) (laws : TableLaws t user_clash) (l : Libraries) where
  refresh_as-is_last :
      (token : String) (id : ℕ) (w : World S D)
      → IsSound t w.db
      → (o : Option User) → get_by_id t id w.db ≡ ok o
      → is_ok (refresh_as t l token o w).0 ≡ is_last l token (now_stored t laws l w) (some id)
  unfolding update_refresh_token
  refresh_as-is_last token id w sound none e = ground arith
  refresh_as-is_last token id w sound (some u) e =
      let found : get_by_id t u.id w.db ≡ ok (some u) =
        ap (λ (k : ℕ). get_by_id t k w.db) (sound.has_id id u e) ∙ e in
      ground (arith, found)

  refresh_payload-accepts_claims :
      (token : String) (c : Claims) (w : World S D)
      → IsSound t w.db
      → is_ok (refresh_payload t l token c w).0
        ≡ accepts_claims l token (now_stored t laws l w) (some c)
  refresh_payload-accepts_claims token c w sound = elim (Bool-cases (has_type "refresh" c)) [
    | inr other ↦ ground arith
    | inl good ↦ elim (Option-cases c.sub) [
      | inl nobody ↦ ground arith
      | inr (sub, named) ↦ elim (Option-cases (l.uuid_of sub)) [
        | inl unread ↦ ground arith
        | inr (id, is_id) ↦
            let (o, e) = sound.id_answers id in
            ground (arith, refresh_as-is_last token id w sound o e)
      ]
    ]
  ]

  pub refresh-accepts :
      (token : String) (w : World S D)
      → IsSound t w.db
      → is_ok (refresh t l token w).0 ≡ accepts l w.now token (now_stored t laws l w)
  unfolding refresh decode_token
  refresh-accepts token w sound = elim (Option-cases (l.decode w.now token)) [
    | inl unread ↦ rw (unread) refl
    | inr (c, is_read) ↦ rw (is_read) (refresh_payload-accepts_claims token c w sound)
  ]
