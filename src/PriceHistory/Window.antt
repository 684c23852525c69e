-- ===== src/PriceHistory/Window.antt =====
-- What `get_history` of app/repositories/price_history_repo.py returns after a snapshot and a purge.
use mathlib.Core.List.{Perm, perm-append_right_iff, perm_comm}
use mathlib.Core.List.Perm as Perms
use crypto_back.Prelude.{
  ℕ, ◌≡◌, ◌∙◌, refl, sym, ap, String, Bool, false, not, ◌&&◌, List, [], ◌∷◌, ◌++◌, any, keep_if,
  leb, str_eq, if◌then◌else◌, ◌+◌, ◌*◌, arith,
}
use crypto_back.Sql.{Table, TableLaws, Queries, QueriesLaws, IsOrder, IsSorted}
use crypto_back.Sql.Sizes.{smaller}
use crypto_back.PriceHistory.{
  PriceHistory, DeadLetter, in_window, is_since, recorded_before, append_price_snapshot,
  get_history, purge_old_history,
}

recorded_before-IsOrder : IsOrder recorded_before
recorded_before-IsOrder = record { total = λ x y. ground arith; trans = λ x y z h k. ground arith }

-- What passes both of two tests.
keep_if_both :
    {A : Type 0} (p s both : A → Bool) (l : List A)
    → ((x : A) → both x ≡ (p x && s x))
    → keep_if p (keep_if s l) ≡ keep_if both l
keep_if_both p s both [] h = refl
keep_if_both p s both (x ∷ l) h = ground (arith, keep_if_both p s both l h, h x)

keep_if_last :
    {A : Type 0} (p : A → Bool) (l : List A) (x : A)
    → keep_if p (l ++ x ∷ []) ≡ keep_if p l ++ (if p x then x ∷ [] else [])
keep_if_last p [] x = ground arith
keep_if_last p (y ∷ l) x = ground (arith, keep_if_last p l x)

module _ {D : Type 0} (t : Table PriceHistory D) (q : Queries PriceHistory D)
    (dead : Table DeadLetter D) (clash : PriceHistory → PriceHistory → Bool)
    (laws : TableLaws t clash) (query_laws : QueriesLaws t q) where
  window_both :
      (external_id : String) (days keep_days now : ℕ) (x : PriceHistory)
      → in_window external_id now (smaller days keep_days) x
        ≡ (in_window external_id now days x && not (not (is_since now keep_days x)))
  window_both external_id days keep_days now x = ground arith

  purged :
      (external_id : String) (days keep_days now : ℕ) (d : D)
      → keep_if
          (in_window external_id now days)
          (t.rows (purge_old_history t q dead keep_days now d).1)
        ≡ keep_if (in_window external_id now (smaller days keep_days)) (t.rows d)
  unfolding purge_old_history
  purged external_id days keep_days now d =
      ap (keep_if (in_window external_id now days))
        (laws.rows-delete (λ h. not (is_since now keep_days h)) d)
      ∙ keep_if_both (in_window external_id now days) (λ h. not (not (is_since now keep_days h)))
          (in_window external_id now (smaller days keep_days)) (t.rows d)
          (window_both external_id days keep_days now)

  appended :
      (row : PriceHistory) (d : D)
      → any (clash row) (t.rows d) ≡ false
      → t.rows (append_price_snapshot t q dead row.external_id row.price row.recorded_at d).1
        ≡ t.rows d ++ row ∷ []
  unfolding append_price_snapshot
  appended row d clear =
      let (d', inserted, rows) = laws.insert_done row d clear in rw (inserted) rows

  -- A snapshot is appended, rows of more than `keep_days` days are purged, and the history of a coin
  -- over `days` days is read: it is the history that the coin had, over the shorter of the two times,
  -- and the snapshot with it if and only if it is one of that coin and not older than that; and the
  -- history comes in the order in which it was recorded. What is relied on: the row has a new id.
  pub get_history-append_price_snapshot :
      (external_id : String) (days keep_days now : ℕ) (row : PriceHistory) (d : D)
      → any (clash row) (t.rows d) ≡ false
      → let with_row =
          (append_price_snapshot t q dead row.external_id row.price row.recorded_at d).1 in
        let kept = (purge_old_history t q dead keep_days now with_row).1 in
        let reach = smaller days keep_days in
        let before = get_history t q dead external_id reach now d in
        let after = get_history t q dead external_id days now kept in
        Perm after (
          before
          ++ (if str_eq row.external_id external_id
                && leb now (row.recorded_at + reach * 86400000000)
              then row ∷ []
              else []))
        × IsSorted recorded_before after
  unfolding get_history
  get_history-append_price_snapshot external_id days keep_days now row d clear =
      let with_row =
        (append_price_snapshot t q dead row.external_id row.price row.recorded_at d).1 in
      let kept = (purge_old_history t q dead keep_days now with_row).1 in
      let p = in_window external_id now (smaller days keep_days) in
      let whole : keep_if (in_window external_id now days) (t.rows kept)
          ≡ keep_if p (t.rows d) ++ (if p row then row ∷ [] else []) =
        purged external_id days keep_days now with_row
        ∙ ap (keep_if p) (appended row d clear)
        ∙ keep_if_last p (t.rows d) row in
      (
        Perms.trans
            (rw (sym whole)
              (query_laws.ordered-perm (in_window external_id now days) recorded_before kept))
            ((perm-append_right_iff (if p row then row ∷ [] else [])).1
              (perm_comm.0 (query_laws.ordered-perm p recorded_before d))),
        query_laws.ordered-IsSorted (in_window external_id now days) recorded_before kept
            recorded_before-IsOrder,
      )
