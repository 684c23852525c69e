-- ===== src/Auth/Rotation.antt =====
-- `AuthService.refresh` (app/services/auth_service.py): a refresh token is exchanged for a new one.
use crypto_back.Prelude.{ℕ, ◌*◌, ◌/◌, ◌<◌, ◌≡◌, ◌∙◌, ap, String, none, some, arith, eq_iff}
use crypto_back.Exec.{Result, ok}
use crypto_back.World.{World}
use crypto_back.Sql.{Table, TableLaws}
use crypto_back.Users.{User, user_clash, get_by_id, update_refresh_token}
use crypto_back.Users.Laws.{get_by_id-token_set, token_set}
use crypto_back.Security.{
  Libraries, refresh_claims, create_access_token, create_refresh_token, decode_token,
}
use crypto_back.Auth.{TokenResponse, refresh}

-- A token that has not expired decodes to its claims.
decode_refresh :
    (l : Libraries) (now issued : ℕ) (s : String)
    → now < (refresh_claims l issued s).exp * 1000000
    → decode_token l now (create_refresh_token l issued s) ≡ ok (refresh_claims l issued s)
unfolding decode_token create_refresh_token
decode_refresh l now issued s h = ground (arith, l.decode-encode now (refresh_claims l issued s))

module _ {S D : Type 0} (t : Table User D) (laws : TableLaws t user_clash) (l : Libraries) where
  module _ (u : User) (issued : ℕ) (w : World S D) (found : get_by_id t u.id w.db ≡ ok (some u))
      (stored : u.refresh_token ≡ some (create_refresh_token l issued (l.uuid_text u.id)))
      (fresh : w.now < (refresh_claims l issued (l.uuid_text u.id)).exp * 1000000) where
    abbrev pub old : String
    old = create_refresh_token l issued (l.uuid_text u.id)

    abbrev pub new_token : String
    new_token = create_refresh_token l w.now (l.uuid_text u.id)

    refreshes :
        let (result, w') = refresh t l old w in
        (result
          ≡ ok (record {
            access_token = create_access_token l w.now (l.uuid_text u.id) u.role;
            refresh_token = new_token;
          }))
        × (w'.db ≡ token_set t laws u.id (some new_token) w.db)
        × (w'.now ≡ w.now)
    unfolding refresh update_refresh_token
    refreshes = ground (
      arith,
      decode_refresh l w.now issued (l.uuid_text u.id),
      l.uuid_of-text u.id,
      found,
      stored,
      eq_iff old old,
    )

    -- The row of the user after the exchange.
    abbrev renewed : User
    renewed = record u { refresh_token = some new_token }

    found_after : get_by_id t u.id (refresh t l old w).1.db ≡ ok (some renewed)
    found_after =
        rw refreshes.1
          (get_by_id-token_set t laws u.id u.id (some new_token) w.db ∙ rw found (ground arith))

    same_token : w.now / 1000000 ≡ issued / 1000000 → new_token ≡ old
    unfolding create_refresh_token
    same_token e =
        ap
          (λ (k : ℕ). l.encode (record {
            sub = some (l.uuid_text u.id);
            role = none;
            exp = k;
            token_type = some "refresh";
          }))
          (omega arith)

  -- Within the second in which the token was issued the exchange returns the same refresh token, so
  -- that the token which was to be replaced is accepted once more, with the same reply.
  pub rotation_within_second :
      (u : User) (issued : ℕ) (w : World S D)
      → get_by_id t u.id w.db ≡ ok (some u)
      → u.refresh_token ≡ some (create_refresh_token l issued (l.uuid_text u.id))
      → w.now < (refresh_claims l issued (l.uuid_text u.id)).exp * 1000000
      → w.now / 1000000 ≡ issued / 1000000
      → let token = create_refresh_token l issued (l.uuid_text u.id) in
        let reply : Result TokenResponse = ok (record {
          access_token = create_access_token l w.now (l.uuid_text u.id) u.role;
          refresh_token = token;
        }) in
        ((refresh t l token w).0 ≡ reply) × ((refresh t l token (refresh t l token w).1).0 ≡ reply)
  rotation_within_second u issued w found stored fresh e =
      let token = create_refresh_token l issued (l.uuid_text u.id) in
      let same = same_token u issued w found stored fresh e in
      let once = refreshes u issued w found stored fresh in
      let w' = (refresh t l token w).1 in
      let u' = renewed u issued w found stored fresh in
      let twice =
        refreshes u' issued w' (found_after u issued w found stored fresh) (ap some same)
          (rw once.2 fresh) in
      (once.0 ∙ rw same, twice.0 ∙ rw once.2 (rw same))
