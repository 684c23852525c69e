-- ===== src/Watchlist/Rows.antt =====
-- The rows of the watchlist as a set of pairs (app/models/watchlist.py).
use crypto_back.Prelude.{
  ℕ, ◌≡◌, refl, Bool, true, false, not, ◌||◌, Option, none, some, List, [], ◌∷◌, ◌++◌, ◌==◌, any,
  All, keep_if, Bool-cases, inl, inr, if◌then◌else◌, arith,
}
use crypto_back.Exec.{ok}
use crypto_back.Sql.{IsApart}
use crypto_back.Sql.Scalar.{scalar_one_or_none}
use crypto_back.Watchlist.{WatchlistItem, item_clash, is_pair}
use crypto_back.Watchlist.Spec.{View, change}

-- Who has what.
abbrev pub view : List WatchlistItem → View
view l u c = any (is_pair u c) l

abbrev pub find_pair : ℕ → ℕ → List WatchlistItem → Option WatchlistItem
find_pair u c [] = none
find_pair u c (x ∷ l) = if is_pair u c x then some x else find_pair u c l

none_kept :
    (x : WatchlistItem) (u c : ℕ) (l : List WatchlistItem)
    → any (item_clash x) l ≡ false
    → is_pair u c x ≡ true
    → keep_if (is_pair u c) l ≡ []
none_kept x u c [] h k = refl
none_kept x u c (y ∷ l) h k = ground (arith, none_kept x u c l)

-- The query for a pair finds at most one row, the one of the view.
pub scalar-find_pair :
    (u c : ℕ) (l : List WatchlistItem)
    → IsApart item_clash l
    → scalar_one_or_none (keep_if (is_pair u c) l) ≡ ok (find_pair u c l)
unfolding scalar_one_or_none
scalar-find_pair u c [] h = refl
scalar-find_pair u c (x ∷ l) h = elim (Bool-cases (is_pair u c x)) [
  | inl here ↦ rw here (rw (none_kept x u c l h.0 here) refl)
  | inr elsewhere ↦ rw elsewhere (scalar-find_pair u c l h.1)
]

any-append_one :
    {A : Type 0} (p : A → Bool) (l : List A) (x : A) → any p (l ++ x ∷ []) ≡ (any p l || p x)
any-append_one p [] x = ground arith
any-append_one p (y ∷ l) x = ground (arith, any-append_one p l x)

pub IsApart-append :
    (l : List WatchlistItem) (x : WatchlistItem)
    → IsApart item_clash l
    → any (item_clash x) l ≡ false
    → IsApart item_clash (l ++ x ∷ [])
IsApart-append [] x h k = ground arith
IsApart-append (y ∷ l) x h k =
    (ground (arith, h.0, any-append_one (item_clash y) l x), IsApart-append l x h.1 (ground arith))

any-keep_if :
    {A : Type 0} (p q : A → Bool) (l : List A) → any p l ≡ false → any p (keep_if q l) ≡ false
any-keep_if p q [] h = refl
any-keep_if p q (y ∷ l) h = ground (arith, any-keep_if p q l)

pub IsApart-keep_if :
    (q : WatchlistItem → Bool) (l : List WatchlistItem)
    → IsApart item_clash l
    → IsApart item_clash (keep_if q l)
IsApart-keep_if q [] h = tt
IsApart-keep_if q (y ∷ l) h = elim (Bool-cases (q y)) [
  | inl stays ↦ rw stays (any-keep_if (item_clash y) q l h.0, IsApart-keep_if q l h.1)
  | inr goes ↦ rw goes (IsApart-keep_if q l h.1)
]

pub view-append :
    (l : List WatchlistItem) (x : WatchlistItem) (u c : ℕ)
    → view (l ++ x ∷ []) u c ≡ (view l u c || is_pair u c x)
view-append l x u c = any-append_one (is_pair u c) l x

-- Whether a row has the id is whether it is for the pair.
abbrev IsOnly : ℕ → ℕ → ℕ → WatchlistItem → Type 0
IsOnly i u c y = (y.id == i) ≡ is_pair u c y

others-IsOnly :
    (x : WatchlistItem) (u c : ℕ) (l : List WatchlistItem)
    → any (item_clash x) l ≡ false
    → is_pair u c x ≡ true
    → All (IsOnly x.id u c) l
others-IsOnly x u c [] h k = tt
others-IsOnly x u c (y ∷ l) h k = (ground arith, others-IsOnly x u c l (ground arith) k)

find_pair-clash :
    (y x : WatchlistItem) (u c : ℕ) (l : List WatchlistItem)
    → any (item_clash y) l ≡ false
    → find_pair u c l ≡ some x
    → item_clash y x ≡ false
find_pair-clash y x u c [] h k = cc
find_pair-clash y x u c (z ∷ l) h k = ground (arith, find_pair-clash y x u c l)

found-IsOnly :
    (x : WatchlistItem) (u c : ℕ) (l : List WatchlistItem)
    → IsApart item_clash l
    → find_pair u c l ≡ some x
    → All (IsOnly x.id u c) l
found-IsOnly x u c [] h k = tt
found-IsOnly x u c (y ∷ l) h k = elim (Bool-cases (is_pair u c y)) [
  | inl here ↦ (ground arith, ground (arith, others-IsOnly y u c l h.0 here))
  | inr elsewhere ↦
      let later : find_pair u c l ≡ some x = ground arith in
      (ground (arith, find_pair-clash y x u c l h.0 later), found-IsOnly x u c l h.1 later)
]

view-keep_if :
    (i u c : ℕ) (l : List WatchlistItem) (u' c' : ℕ)
    → All (IsOnly i u c) l
    → view (keep_if (λ (y : WatchlistItem). not (y.id == i)) l) u' c'
      ≡ change false u c (view l) u' c'
view-keep_if i u c [] u' c' h = ground arith
view-keep_if i u c (y ∷ l) u' c' h = ground (arith, h.0, view-keep_if i u c l u' c' h.1)

-- A deleted item is gone, and it alone.
pub view-delete :
    (x : WatchlistItem) (u c : ℕ) (l : List WatchlistItem) (u' c' : ℕ)
    → IsApart item_clash l
    → find_pair u c l ≡ some x
    → view (keep_if (λ (y : WatchlistItem). not (y.id == x.id)) l) u' c'
      ≡ change false u c (view l) u' c'
view-delete x u c l u' c' h k = view-keep_if x.id u c l u' c' (found-IsOnly x u c l h k)

pub view-find_pair :
    (u c : ℕ) (l : List WatchlistItem)
    → view l u c ≡ elim (find_pair u c l) [ none ↦ false | some x ↦ true ]
view-find_pair u c [] = refl
view-find_pair u c (y ∷ l) = ground (arith, view-find_pair u c l)
