-- ===== src/Exec.antt =====
-- Methods that change a state and may raise. What was changed before a raise stays changed, so the
-- state comes back beside the exception too.
use crypto_back.Prelude.{◌≡◌, ◌∙◌, refl, Option, none, some}
use crypto_back.Errors.{Error}

pub data Result {ℓ} (A : Type ℓ) : Type ℓ where
  ok : A → Result A
  err : Error → Result A

abbrev pub error_of {ℓ} : {A : Type ℓ} → Result A → Option Error
error_of (ok a) = none
error_of (err e) = some e

abbrev pub Exec : Type 0 → Type 0 → Type 0
Exec S A = S → Result A × S

module _ {S A : Type 0} where
  abbrev pub pure : A → Exec S A
  pure a s = (ok a, s)

  abbrev pub raise : Error → Exec S A
  raise e s = (err e, s)

  abbrev pub lift : Result A → Exec S A
  lift r s = (r, s)

  abbrev pub gets : (S → A) → Exec S A
  gets f s = (ok (f s), s)

abbrev pub modify : {S : Type 0} → (S → S) → Exec S Unit
modify f s = (ok tt, f s)

module _ {S A B : Type 0} where
  abbrev pub continue : Result A → (A → Exec S B) → Exec S B
  continue (ok a) f s = f a s
  continue (err e) f s = (err e, s)

  infixl 10 ◌>>=◌ ◌>>◌
  abbrev pub ◌>>=◌ : Exec S A → (A → Exec S B) → Exec S B
  ◌>>=◌ m f s = let (r, s') = m s in continue r f s'

  abbrev pub ◌>>◌ : Exec S A → Exec S B → Exec S B
  ◌>>◌ m n s = let (r, s') = m s in continue r (λ _. n) s'

module _ {S A : Type 0} where
  abbrev pub handle : Result A → (Error → Exec S A) → Exec S A
  handle (ok a) h s = (ok a, s)
  handle (err e) h s = h e s

  -- `try: m except ...: h`
  abbrev pub catch : Exec S A → (Error → Exec S A) → Exec S A
  catch m h s = let (r, s') = m s in handle r h s'

  -- `try: m finally: cleanup`, where the clean-up does not raise.
  abbrev pub finally : Exec S A → (S → S) → Exec S A
  finally m cleanup s = let (r, s') = m s in (r, cleanup s')

-- What a method leaves of the state as it was, seen by `look`.
module _ {S X : Type 0} (look : S → X) where
  unfoldable pub Keeps : {A : Type 0} → Exec S A → Type 0
  Keeps m = (s : S) → look (m s).1 ≡ look s

  continue-Keeps :
      {A B : Type 0} (f : A → Exec S B) (a : Result A) (s : S)
      → ((a : A) → Keeps (f a))
      → look (continue a f s).1 ≡ look s
  unfolding Keeps
  continue-Keeps f (ok a) s h = h a s
  continue-Keeps f (err e) s h = refl

  pub Keeps-pure : {A : Type 0} (a : A) → Keeps (pure a)
  unfolding Keeps
  Keeps-pure a s = refl

  pub Keeps-lift : {A : Type 0} (r : Result A) → Keeps (lift r)
  unfolding Keeps
  Keeps-lift r s = refl

  pub bind-Keeps :
      {A B : Type 0} (m : Exec S A) (f : A → Exec S B)
      → Keeps m
      → ((a : A) → Keeps (f a))
      → Keeps (m >>= f)
  unfolding Keeps
  bind-Keeps m f hm hf s = continue-Keeps f (m s).0 (m s).1 hf ∙ hm s

  -- For `search`: a block keeps what its statements keep.
  pub ruleset keeps_rules = (Keeps-pure, Keeps-lift, bind-Keeps)
