-- ===== src/Watchlist/Refinement.antt =====
-- The handlers of the watchlist do what Spec.antt promises, over any sequence of requests
-- (app/api/v1/endpoints/watchlist.py, app/repositories/watchlist_repo.py).
use mathlib.Core.Path.{ap₂}
use crypto_back.Prelude.{
  ℕ, ◌≡◌, ◌∙◌, refl, ap, Bool, true, false, not, Option, none, some, Option-cases, inl, inr, List,
  [], ◌∷◌, any, ◌==◌, is_some, arith,
}
use crypto_back.Errors.{not_found_error}
use crypto_back.Errors.Handlers.{handle}
use crypto_back.Exec.{Result, ok, err}
use crypto_back.World.{World, emit}
use crypto_back.Metrics.{watchlist_operations}
use crypto_back.Redis.{Redis}
use crypto_back.Sql.{Table, Queries, TableLaws, IsApart}
use crypto_back.Coins.{Cryptocurrency, get_by_id}
use crypto_back.Idempotency.{check_idempotency}
use crypto_back.Watchlist.{
  WatchlistItem, Schema, item_clash, get_item, new_item, add, remove, add_fresh, add_to_watchlist,
  remove_from_watchlist,
}
use crypto_back.Watchlist.Cycle.{
  get_item-rows, no_item_clash, add_conflict, add_ok, remove_ok, remove_missing,
}
use crypto_back.Watchlist.Rows.{
  view, find_pair, scalar-find_pair, view-find_pair, view-append, view-delete, IsApart-append,
  IsApart-keep_if,
}
use crypto_back.Watchlist.Fresh.{AreFresh, AreFresh-append, AreFresh-keep_if}
use crypto_back.Watchlist.Spec.{Call, post, delete, answer, answers}

abbrev status_of : {A : Type 0} → ℕ → Result A → ℕ
status_of code (ok a) = code
status_of code (err e) = (handle e).status_code

module _ {S D : Type 0} (r : Redis S) (coins : Table Cryptocurrency D)
    (coin_queries : Queries Cryptocurrency D) (t : Table WatchlistItem D)
    (q : Queries WatchlistItem D) (laws : TableLaws t item_clash) (schema : Schema)
    (coin_of : ℕ → Option Cryptocurrency) where
  abbrev pub serve : Call → World S D → ℕ × World S D
  serve (post id user_id coin_id) w =
      let (result, w') =
        add_to_watchlist r coins coin_queries t q schema id none user_id coin_id w in
      (status_of 201 result, w')
  serve (delete user_id coin_id) w =
      let (result, w') = remove_from_watchlist r coins coin_queries t q schema user_id coin_id w in
      (status_of 204 result, w')

  abbrev pub serve_all : List Call → World S D → List ℕ × World S D
  serve_all [] w = ([], w)
  serve_all (call ∷ calls) w =
      let (status, w') = serve call w in
      let (statuses, end) = serve_all calls w' in (status ∷ statuses, end)

  -- Requests to the watchlist change no coin.
  pub record KeepsCoins : Type 0 where
    pub on_insert :
        (x : WatchlistItem) (d d' : D) (c : ℕ)
        → t.insert x d ≡ ok d'
        → get_by_id coins coin_queries c d' ≡ get_by_id coins coin_queries c d
    pub on_delete :
        (p : WatchlistItem → Bool) (d : D) (c : ℕ)
        → get_by_id coins coin_queries c (t.delete p d) ≡ get_by_id coins coin_queries c d

  -- The constraints of the table hold, and the coins are the given ones.
  pub record IsSound (w : World S D) : Type 0 where
    pub apart : IsApart item_clash (t.rows w.db)
    pub coin : (c : ℕ) → get_by_id coins coin_queries c w.db ≡ ok (coin_of c)

  abbrev known : ℕ → Bool
  known c = is_some (coin_of c)

  record Step (call : Call) (w : World S D) : Type 0 where
    status : (serve call w).0 ≡ (answer known call (view (t.rows w.db))).0
    next :
        (u c : ℕ)
        → view (t.rows (serve call w).1.db) u c ≡ (answer known call (view (t.rows w.db))).1 u c
    sound : IsSound (serve call w).1
    fresh :
        (calls : List Call)
        → AreFresh (call ∷ calls) (t.rows w.db)
        → AreFresh calls (t.rows (serve call w).1.db)

  item_at :
      (u c : ℕ) (w : World S D)
      → IsSound w
      → get_item t q u c w.db ≡ ok (find_pair u c (t.rows w.db))
  item_at u c w sound =
      get_item-rows t q laws u c w.db ∙ scalar-find_pair u c (t.rows w.db) sound.apart

  add_unknown :
      (id u c : ℕ) (w : World S D)
      → get_by_id coins coin_queries c w.db ≡ ok none
      → add_to_watchlist r coins coin_queries t q schema id none u c w
        ≡ (err (not_found_error "Cryptocurrency not found"), w)
  unfolding add_to_watchlist add_fresh check_idempotency
  add_unknown id u c w h = ground (arith, h)

  arrives :
      (call : Call) (w : World S D) (status : ℕ) (w' : World S D)
      → serve call w ≡ (status, w')
      → status ≡ (answer known call (view (t.rows w.db))).0
      → ((u c : ℕ) → view (t.rows w'.db) u c ≡ (answer known call (view (t.rows w.db))).1 u c)
      → IsSound w'
      → ((calls : List Call)
          → AreFresh (call ∷ calls) (t.rows w.db)
          → AreFresh calls (t.rows w'.db))
      → Step call w
  arrives call w status w' e same next sound fresh = record {
    status = rw e same;
    next = λ u c. rw e (next u c);
    sound = rw e sound;
    fresh = λ calls h. rw e (fresh calls h);
  }

  delete-Step : (u c : ℕ) (w : World S D) → KeepsCoins → IsSound w → Step (delete u c) w
  unfolding handle remove
  delete-Step u c w keeps sound = elim (Option-cases (find_pair u c (t.rows w.db))) [
    | inl absent ↦
        let e =
          remove_missing r coins coin_queries t q laws schema u c w
            (item_at u c w sound ∙ ap ok absent) in
        let unseen : view (t.rows w.db) u c ≡ false =
          view-find_pair u c (t.rows w.db) ∙ rw absent refl in
        arrives (delete u c) w 404 (emit (watchlist_operations "remove" "not_found") w) (rw e refl)
          (rw unseen refl) (λ u' c'. rw unseen refl)
          (record { apart = sound.apart; coin = sound.coin }) (λ calls h. h)
    | inr (x, there) ↦
        let e =
          remove_ok r coins coin_queries t q laws schema u c x w
            (item_at u c w sound ∙ ap ok there) in
        let seen : view (t.rows w.db) u c ≡ true =
          view-find_pair u c (t.rows w.db) ∙ rw there refl in
        let p = λ (y : WatchlistItem). y.id == x.id in
        let w' : World S D =
          emit (watchlist_operations "remove" "success") (record w { db = t.delete p w.db }) in
        arrives (delete u c) w 204 w' (rw e refl) (rw seen refl)
          (λ u' c'. rw seen (
            rw (laws.rows-delete p w.db) (view-delete x u c (t.rows w.db) u' c' sound.apart there)))
          (record {
            apart =
                rw (laws.rows-delete p w.db)
                  (IsApart-keep_if (λ y. not (p y)) (t.rows w.db) sound.apart);
            coin = λ c'. keeps.on_delete p w.db c' ∙ sound.coin c';
          })
          (λ calls h.
            rw (laws.rows-delete p w.db) (AreFresh-keep_if calls (λ y. not (p y)) (t.rows w.db) h))
  ]

  -- A new item of a known coin.
  created-Step :
      (id u c : ℕ) (coin : Cryptocurrency) (w : World S D)
      → KeepsCoins
      → IsSound w
      → coin_of c ≡ some coin
      → find_pair u c (t.rows w.db) ≡ none
      → any (λ (y : WatchlistItem). id == y.id) (t.rows w.db) ≡ false
      → Step (post id u c) w
  unfolding add
  created-Step id u c coin w keeps sound is_known absent unused =
      let x = new_item t q id w.now u c in
      let missing = item_at u c w sound ∙ ap ok absent in
      let clear =
        no_item_clash x (t.rows w.db)
          (scalar-find_pair u c (t.rows w.db) sound.apart ∙ ap ok absent) unused in
      let (d', inserted, rows) = laws.insert_done x w.db clear in
      let e =
        add_ok r coins coin_queries t q laws schema u c id coin x d' w
          (sound.coin c ∙ ap ok is_known) missing (rw inserted refl) in
      let unseen : view (t.rows w.db) u c ≡ false =
        view-find_pair u c (t.rows w.db) ∙ rw absent refl in
      let w' : World S D = emit (watchlist_operations "add" "success") (record w { db = d' }) in
      arrives (post id u c) w 201 w' (rw e refl) (rw is_known (rw unseen refl))
        (λ u' c'.
          rw is_known (rw unseen (rw rows (view-append (t.rows w.db) x u' c' ∙ ground arith))))
        (record {
          apart = rw rows (IsApart-append (t.rows w.db) x sound.apart clear);
          coin = λ c'. keeps.on_insert x w.db d' c' inserted ∙ sound.coin c';
        })
        (λ calls h. rw rows (AreFresh-append calls (t.rows w.db) x h.2 h.1))

  post-Step :
      (id u c : ℕ) (w : World S D)
      → KeepsCoins
      → IsSound w
      → any (λ (y : WatchlistItem). id == y.id) (t.rows w.db) ≡ false
      → Step (post id u c) w
  unfolding handle
  post-Step id u c w keeps sound unused = elim (Option-cases (coin_of c)) [
    | inl unknown ↦
        let e = add_unknown id u c w (sound.coin c ∙ ap ok unknown) in
        arrives (post id u c) w 404 w (rw e refl) (rw unknown refl) (λ u' c'. rw unknown refl) sound
          (λ calls h. h.2)
    | inr (coin, is_known) ↦ elim (Option-cases (find_pair u c (t.rows w.db))) [
      | inl absent ↦ created-Step id u c coin w keeps sound is_known absent unused
      | inr (x, there) ↦
          let e =
            add_conflict r coins coin_queries t q laws schema u c id coin x w
              (sound.coin c ∙ ap ok is_known) (item_at u c w sound ∙ ap ok there) in
          let seen : view (t.rows w.db) u c ≡ true =
            view-find_pair u c (t.rows w.db) ∙ rw there refl in
          arrives (post id u c) w 409 (emit (watchlist_operations "add" "conflict") w) (rw e refl)
            (rw is_known (rw seen refl)) (λ u' c'. rw is_known (rw seen refl))
            (record { apart = sound.apart; coin = sound.coin }) (λ calls h. h.2)
    ]
  ]

  call-Step :
      (call : Call) (calls : List Call) (w : World S D)
      → KeepsCoins
      → IsSound w
      → AreFresh (call ∷ calls) (t.rows w.db)
      → Step call w
  call-Step (post id u c) calls w keeps sound h = post-Step id u c w keeps sound h.0
  call-Step (delete u c) calls w keeps sound h = delete-Step u c w keeps sound

  -- Over any requests without idempotency keys, in any order and of any users, the handlers answer
  -- with the statuses of the specification, and end with its set of coins for each user: 201 or 409
  -- by whether the user has the coin, 204 or 404 likewise, and 404 for a coin that is not known. What
  -- is relied on: the constraints of the table hold at the start, each new item has a new id, and
  -- requests to the watchlist change no coin.
  pub watchlist_refines :
      (calls : List Call) (w : World S D)
      → KeepsCoins
      → IsSound w
      → AreFresh calls (t.rows w.db)
      → let (statuses, end) = serve_all calls w in
        let (promised, end_view) = answers (λ c. is_some (coin_of c)) calls (view (t.rows w.db)) in
        (statuses ≡ promised) × (view (t.rows end.db) ≡ end_view)
  watchlist_refines [] w keeps sound fresh = (refl, refl)
  watchlist_refines (call ∷ calls) w keeps sound fresh =
      let step = call-Step call calls w keeps sound fresh in
      let w' = (serve call w).1 in
      let same : view (t.rows w'.db) ≡ (answer known call (view (t.rows w.db))).1 =
        λ i u c. step.next u c i in
      let (statuses, ends) = watchlist_refines calls w' keeps step.sound (step.fresh calls fresh) in
      (
        ap₂ (λ (n : ℕ) (l : List ℕ). n ∷ l) step.status
            (statuses ∙ ap (λ v. (answers known calls v).0) same),
        ends ∙ ap (λ v. (answers known calls v).1) same,
      )
