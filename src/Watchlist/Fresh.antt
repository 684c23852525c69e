-- ===== src/Watchlist/Fresh.antt =====
-- New ids for the items of a sequence of requests (app/models/watchlist.py).
use crypto_back.Prelude.{ℕ, ◌≡◌, refl, Bool, false, List, [], ◌∷◌, ◌++◌, any, keep_if, ◌==◌, arith}
use crypto_back.Watchlist.{WatchlistItem}
use crypto_back.Watchlist.Spec.{Call, post, delete}

-- The ids of the new items are new, and no two are the same.
abbrev pub IsUnused : ℕ → List Call → Type 0
IsUnused id [] = Unit
IsUnused id (post id' u c ∷ calls) = ((id' == id) ≡ false) × IsUnused id calls
IsUnused id (delete u c ∷ calls) = IsUnused id calls

abbrev pub AreFresh : List Call → List WatchlistItem → Type 0
AreFresh [] l = Unit
AreFresh (post id u c ∷ calls) l =
    (any (λ (y : WatchlistItem). id == y.id) l ≡ false) × IsUnused id calls × AreFresh calls l
AreFresh (delete u c ∷ calls) l = AreFresh calls l

any-added :
    (id : ℕ) (l : List WatchlistItem) (x : WatchlistItem)
    → any (λ (y : WatchlistItem). id == y.id) l ≡ false
    → (id == x.id) ≡ false
    → any (λ (y : WatchlistItem). id == y.id) (l ++ x ∷ []) ≡ false
any-added id [] x h k = ground arith
any-added id (y ∷ l) x h k = ground (arith, any-added id l x)

any-kept :
    (id : ℕ) (p : WatchlistItem → Bool) (l : List WatchlistItem)
    → any (λ (y : WatchlistItem). id == y.id) l ≡ false
    → any (λ (y : WatchlistItem). id == y.id) (keep_if p l) ≡ false
any-kept id p [] h = refl
any-kept id p (y ∷ l) h = ground (arith, any-kept id p l)

pub AreFresh-append :
    (calls : List Call) (l : List WatchlistItem) (x : WatchlistItem)
    → AreFresh calls l
    → IsUnused x.id calls
    → AreFresh calls (l ++ x ∷ [])
AreFresh-append [] l x h k = tt
AreFresh-append (post id u c ∷ calls) l x h k =
    (any-added id l x h.0 k.0, h.1, AreFresh-append calls l x h.2 k.1)
AreFresh-append (delete u c ∷ calls) l x h k = AreFresh-append calls l x h k

pub AreFresh-keep_if :
    (calls : List Call) (p : WatchlistItem → Bool) (l : List WatchlistItem)
    → AreFresh calls l
    → AreFresh calls (keep_if p l)
AreFresh-keep_if [] p l h = tt
AreFresh-keep_if (post id u c ∷ calls) p l h =
    (any-kept id p l h.0, h.1, AreFresh-keep_if calls p l h.2)
AreFresh-keep_if (delete u c ∷ calls) p l h = AreFresh-keep_if calls p l h
