-- ===== src/Users/Unique.antt =====
-- The constraints of the table of users (app/models/user.py) make it sound.
use crypto_back.Prelude.{
  ℕ, ◌≡◌, refl, ◌∙◌, ap, any, String, Bool, true, false, Bool-cases, inl, inr, Option, none, some,
  List, [], ◌∷◌, keep_if, arith, eq_iff, if◌then◌else◌,
}
use crypto_back.Exec.{ok}
use crypto_back.Sql.{Table, TableLaws, IsApart}
use crypto_back.Sql.Scalar.{scalar_one_or_none}
use crypto_back.Users.{User, user_clash, has_email, has_id, get_by_email, get_by_id}
use crypto_back.Users.Laws.{get_by_email-rows, get_by_id-rows}
use crypto_back.Users.Sound.{IsSound}

abbrev find : (User → Bool) → List User → Option User
find p [] = none
find p (x ∷ l) = if p x then some x else find p l

none_kept :
    (p : User → Bool) (x : User)
    → ((y : User) → user_clash x y ≡ false → p y ≡ false)
    → (l : List User) → any (user_clash x) l ≡ false
    → keep_if p l ≡ []
none_kept p x apart [] h = refl
none_kept p x apart (y ∷ l) h = ground (arith, apart y, none_kept p x apart l)

scalar-find :
    (p : User → Bool)
    → ((x y : User) → p x ≡ true → user_clash x y ≡ false → p y ≡ false)
    → (l : List User) → IsApart user_clash l
    → scalar_one_or_none (keep_if p l) ≡ ok (find p l)
unfolding scalar_one_or_none
scalar-find p apart [] h = refl
scalar-find p apart (x ∷ l) h = elim (Bool-cases (p x)) [
  | inl here ↦ rw (here, none_kept p x (λ y. apart x y here) l h.0) refl
  | inr elsewhere ↦ rw (elsewhere) (scalar-find p apart l h.1)
]

find_holds :
    (p q : User → Bool) (l : List User) (u : User)
    → find p l ≡ some u
    → any q l ≡ false
    → q u ≡ false
find_holds p q [] u e h = ground arith
find_holds p q (x ∷ l) u e h = elim (Bool-cases (p x)) [
  | inl here ↦ ground (arith, here, e, h)
  | inr elsewhere ↦ ground (arith, find_holds p q l u)
]

find_passes : (p : User → Bool) (l : List User) (u : User) → find p l ≡ some u → p u ≡ true
find_passes p [] u e = ground arith
find_passes p (x ∷ l) u e = elim (Bool-cases (p x)) [
  | inl here ↦ ground (arith, here, e)
  | inr elsewhere ↦ ground (arith, find_passes p l u)
]

find_linked :
    (email : String) (l : List User) (u : User)
    → IsApart user_clash l
    → find (has_email email) l ≡ some u
    → find (has_id u.id) l ≡ some u
find_linked email [] u h e = ground arith
find_linked email (x ∷ l) u h e = elim (Bool-cases (has_email email x)) [
  | inl here ↦ ground (arith, here, e)
  | inr elsewhere ↦
      ground
        (arith, find_holds (has_email email) (user_clash x) l u, find_linked email l u h.1, h.0)
]

module _ {D : Type 0} (t : Table User D) (laws : TableLaws t user_clash) where
  -- No two rows of the table have the same id or the same address.
  pub IsApart-IsSound : (d : D) → IsApart user_clash (t.rows d) → IsSound t d
  IsApart-IsSound d apart =
      let by_email : (email : String)
          → get_by_email t email d ≡ ok (find (has_email email) (t.rows d)) =
        λ email.
          get_by_email-rows t laws email d
          ∙ scalar-find (has_email email)
              (λ x y here.
                ground (arith, eq_iff x.email email, eq_iff y.email email, eq_iff x.email y.email))
              (t.rows d) apart in
      let by_id : (id : ℕ) → get_by_id t id d ≡ ok (find (has_id id) (t.rows d)) = λ id.
        get_by_id-rows t laws id d
        ∙ scalar-find (has_id id) (λ x y here. ground (arith, here)) (t.rows d) apart in
      record {
        email_answers = λ email. (find (has_email email) (t.rows d), by_email email);
        id_answers = λ id. (find (has_id id) (t.rows d), by_id id);
        linked = λ email u e.
            by_id u.id
            ∙ ap ok (find_linked email (t.rows d) u apart (ground (arith, by_email email, e)));
        has_id = λ id u e. ground (arith, find_passes (has_id id) (t.rows d) u, by_id id, e);
      }
