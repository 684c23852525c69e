-- ===== src/Coins/Movers.antt =====
-- `get_top_movers` of app/repositories/crypto_repo.py.
use mathlib.Core.List.{Perm}
use crypto_back.Prelude.{
  ℕ, zero, suc, ◌≡◌, refl, ap, ◌∙◌, ◌⊎◌, inl, inr, Bool, true, Option, none, some, List, [], ◌∷◌,
  ◌++◌, length, take, drop, keep_if, All, arith,
}
use crypto_back.Prelude.Int.{ℤ}
use crypto_back.Sql.{Table, Queries, QueriesLaws, IsSorted, IsOrder}
use crypto_back.Sql.Sizes.{smaller, length-take_min, length-Perm}
use crypto_back.Coins.{Cryptocurrency, has_change, change_below, null_last, get_top_movers}

module _ {A : Type 0} where
  take-drop : (n : ℕ) (l : List A) → take n l ++ drop n l ≡ l
  take-drop zero l = refl
  take-drop (suc n) [] = refl
  take-drop (suc n) (x ∷ l) = ap (λ m. x ∷ m) (take-drop n l)

  All-drop : (P : A → Type 0) (n : ℕ) (l : List A) → All P l → All P (drop n l)
  All-drop P zero l h = h
  All-drop P (suc n) [] h = tt
  All-drop P (suc n) (x ∷ l) h = All-drop P n l h.1

  All-take : (P : A → Type 0) (n : ℕ) (l : List A) → All P l → All P (take n l)
  All-take P zero l h = tt
  All-take P (suc n) [] h = tt
  All-take P (suc n) (x ∷ l) h = (h.0, All-take P n l h.1)

  -- The first rows of a sorted list are sorted, and may stand before all the others.
  IsSorted-take :
      (before : A → A → Bool) (n : ℕ) (l : List A) → IsSorted before l → IsSorted before (take n l)
  IsSorted-take before zero l h = tt
  IsSorted-take before (suc n) [] h = tt
  IsSorted-take before (suc n) (x ∷ l) h =
      (All-take (λ y. before x y ≡ true) n l h.0, IsSorted-take before n l h.1)

  take_before_drop :
      (before : A → A → Bool) (n : ℕ) (l : List A)
      → IsSorted before l
      → All (λ x. All (λ y. before x y ≡ true) (drop n l)) (take n l)
  take_before_drop before zero l h = tt
  take_before_drop before (suc n) [] h = tt
  take_before_drop before (suc n) (x ∷ l) h =
      (All-drop (λ y. before x y ≡ true) n l h.0, take_before_drop before n l h.1)

  -- `top` are the first `limit` of `l`, in an order, or all of them if there are fewer.
  pub record IsTop (before : A → A → Bool) (limit : ℕ) (top l : List A) : Type 0 where
    pub rest : List A
    pub complete : Perm (top ++ rest) l
    pub sorted : IsSorted before top
    pub best : All (λ x. All (λ y. before x y ≡ true) rest) top
    pub size : length top ≡ smaller limit (length l)

pub null_last_total : (a b : Option ℤ) → (null_last a b ≡ true) ⊎ (null_last b a ≡ true)
null_last_total a none = inl refl
null_last_total none (some b) = inr refl
null_last_total (some a) (some b) = ground arith

pub null_last_trans :
    (a b c : Option ℤ) → null_last a b ≡ true → null_last b c ≡ true → null_last a c ≡ true
null_last_trans a b none h k = refl
null_last_trans a none (some c) h k = cc
null_last_trans none (some b) (some c) h k = cc
null_last_trans (some a) (some b) (some c) h k = ground arith

change_below-IsOrder : IsOrder change_below
change_below-IsOrder = record {
  total = λ x y. null_last_total x.price_change_percentage_24h y.price_change_percentage_24h;
  trans = λ x y z.
      null_last_trans x.price_change_percentage_24h y.price_change_percentage_24h
        z.price_change_percentage_24h;
}

change_above-IsOrder : IsOrder (λ (x y : Cryptocurrency). change_below y x)
change_above-IsOrder = record {
  total = λ x y. null_last_total y.price_change_percentage_24h x.price_change_percentage_24h;
  trans = λ x y z h k.
      null_last_trans z.price_change_percentage_24h y.price_change_percentage_24h
        x.price_change_percentage_24h k h;
}

module _ {D : Type 0} (t : Table Cryptocurrency D) (q : Queries Cryptocurrency D)
    (laws : QueriesLaws t q) where
  page-IsTop :
      (p : Cryptocurrency → Bool) (before : Cryptocurrency → Cryptocurrency → Bool) (limit : ℕ)
      (d : D)
      → IsOrder before
      → IsTop before limit (q.page p before 0 limit d) (keep_if p (t.rows d))
  page-IsTop p before limit d order =
      let (l, perm, sorted, e) = laws.page_of_ordered p before 0 limit d order in
      rw e (record {
        rest = drop limit l;
        complete = rw (take-drop limit l) perm;
        sorted = IsSorted-take before limit l sorted;
        best = take_before_drop before limit l sorted;
        size = length-take_min limit l ∙ ap (smaller limit) (length-Perm perm);
      })

  -- Of the coins whose change is known, the gainers are the ones with the greatest changes, in
  -- falling order, and the losers those with the smallest, in rising order: exactly `limit` of each,
  -- or all such coins if there are fewer, and no coin that is left out has a greater change than a gainer or a smaller one than a loser.
  pub get_top_movers-IsTop :
      (limit : ℕ) (d : D)
      → let (gainers, losers) = get_top_movers t q limit d in
        let known = keep_if has_change (t.rows d) in
        IsTop (λ x y. change_below y x) limit gainers known × IsTop change_below limit losers known
  unfolding get_top_movers
  get_top_movers-IsTop limit d = (
    page-IsTop has_change (λ x y. change_below y x) limit d change_above-IsOrder,
    page-IsTop has_change change_below limit d change_below-IsOrder,
  )
