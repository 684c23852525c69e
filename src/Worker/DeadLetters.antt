-- ===== src/Worker/DeadLetters.antt =====
-- What is kept of pages that could not be fetched (app/worker/refresh_job.py,
-- app/repositories/price_history_repo.py).
use Prim.Native.String
use text.Mathlib.TextLemmas.{nil-append, cons-append}
use mathlib.Core.List.{append-nil, append_assoc}
use crypto_back.Prelude.{
  ℕ, zero, suc, ◌+◌, ◌-◌, ◌≤◌, ◌≡◌, ◌∙◌, refl, sym, ap, String, Bool, false, ◌⊎◌, inl, inr, Option,
  none, some, List, [], ◌∷◌, ◌++◌, any, arith,
}
use crypto_back.Errors.{Error}
use crypto_back.Exec.{ok, err, error_of}
use crypto_back.World.{World}
use crypto_back.Redis.{Redis, RedisLaws}
use crypto_back.Sql.{Table, Queries, TableLaws}
use crypto_back.Coins.{Cryptocurrency}
use crypto_back.PriceHistory.{PriceHistory, DeadLetter, first_chars, write_dead_letter}
use crypto_back.Provider.{Client, fetch_markets}
use crypto_back.CoinService.{CoinTexts}
use crypto_back.Worker.{
  coins_per_page, max_retries, fetch_and_store_page, give_up, attempt_page, refresh_pages,
}
use crypto_back.Worker.Runs.{IsFailing, page_fails}

-- A text is cut off after `n` characters, or whole.
abbrev pub IsCut : ℕ → String → String → Type 0
IsCut n whole text =
    (rest : String) × (whole ≡ String.◌++◌ text rest)
    × (String.count text ≤ n)
    × ((rest ≡ "") ⊎ (String.count text ≡ n))

first_chars-IsCut : (n : ℕ) (s : String) → IsCut n s (first_chars n s)
unfolding first_chars
first_chars-IsCut zero s = (s, sym (nil-append s), omega arith, inr (omega arith))
first_chars-IsCut (suc n) String.[] = ("", sym (nil-append ""), omega arith, inl refl)
first_chars-IsCut (suc n) (String.◌∷◌ c s) =
    let (rest, whole, few, all_or_full) = first_chars-IsCut n s in
    (
      rest,
      ap (String.◌∷◌ c) whole ∙ sym (cons-append c (first_chars n s) rest),
      omega (arith, String.count.cons c (first_chars n s), few),
      elim all_or_full [
        | inl none_left ↦ inl none_left
        | inr full ↦ inr (omega (arith, String.count.cons c (first_chars n s), full))
      ],
    )

-- No two dead letters clash.
abbrev pub apart : DeadLetter → DeadLetter → Bool
apart x y = false

none_apart : (x : DeadLetter) (l : List DeadLetter) → any (apart x) l ≡ false
none_apart x [] = refl
none_apart x (y ∷ l) = none_apart x l

module _ {S D : Type 0} (r : Redis S) (coins : Table Cryptocurrency D)
    (coin_queries : Queries Cryptocurrency D) (prices : Table PriceHistory D)
    (price_queries : Queries PriceHistory D) (dead : Table DeadLetter D) (texts : CoinTexts)
    (client : Client (World S D)) (sleep : ℕ → World S D → World S D) (draw : ℕ → ℕ) where
  -- The state after a page was asked for.
  abbrev attempted : ℕ → ℕ → World S D → World S D
  attempted now page w =
      (fetch_and_store_page r coins coin_queries prices price_queries dead texts client draw page
        now (record { world = w; pending = w.db })).1.world

  -- The error of the last of so many attempts more at a page, which wait in between.
  abbrev pub last_error : (now page left : ℕ) → World S D → Option Error
  last_error now page zero w = error_of (fetch_markets client coins_per_page page w).0
  last_error now page (suc left) w = last_error now page left (sleep left (attempted now page w))

  abbrev pub after_page : (now page : ℕ) → World S D → World S D
  after_page now page w =
      (attempt_page r coins coin_queries prices price_queries dead texts client sleep draw now page
        (max_retries - 1) w).1

  abbrev Tells : DeadLetter → Option Error → Type 0
  Tells l none = ⊥
  Tells l (some e) = IsCut 2000 (client.describe e) l.error

  -- One open letter for each page from the given one on: its text is that of the error of the last of
  -- the three attempts at the page, cut off after 2000 characters.
  abbrev pub LettersFor : (now page pages : ℕ) → World S D → List DeadLetter → Type 0
  LettersFor now page zero w [] = Unit
  LettersFor now page (suc pages) w (l ∷ ls) =
      (l.batch_page ≡ page)
      × Tells l (last_error now page 2 w)
      × (l.resolved ≡ false)
      × LettersFor now (page + 1) pages (after_page now page w) ls
  LettersFor now page pages w ls = ⊥

module _ {S D : Type 0} (r : Redis S) (laws : RedisLaws r) (coins : Table Cryptocurrency D)
    (coin_queries : Queries Cryptocurrency D) (prices : Table PriceHistory D)
    (price_queries : Queries PriceHistory D) (dead : Table DeadLetter D)
    (dead_laws : TableLaws dead apart) (texts : CoinTexts) (client : Client (World S D))
    (sleep : ℕ → World S D → World S D) (draw : ℕ → ℕ)
    (failing : IsFailing r laws coins coin_queries prices price_queries dead texts client sleep
      draw)
    (fetch_keeps : (page : ℕ) (w : World S D)
      → (dead.rows (fetch_markets client coins_per_page page w).1.db ≡ dead.rows w.db)
        × (coins.rows (fetch_markets client coins_per_page page w).1.db ≡ coins.rows w.db))
    (sleep_keeps : (n : ℕ) (w : World S D)
      → (dead.rows (sleep n w).db ≡ dead.rows w.db) × (coins.rows (sleep n w).db ≡ coins.rows w.db))
    (insert_keeps : (x : DeadLetter) (d d' : D)
      → dead.insert x d ≡ ok d'
      → coins.rows d' ≡ coins.rows d) where
  abbrev letter : ℕ → Error → DeadLetter
  letter page e = record {
    batch_page = page;
    error = first_chars 2000 (client.describe e);
    retries = 0;
    resolved = false;
  }

  written :
      (page : ℕ) (e : Error) (d d' : D)
      → dead.insert (letter page e) d ≡ ok d'
      → write_dead_letter prices price_queries dead page (client.describe e) d ≡ (ok tt, d')
  unfolding write_dead_letter
  written page e d d' inserted = rw inserted refl

  gives_up :
      (page : ℕ) (e : Error) (w : World S D)
      → let (result, end) =
          give_up r coins coin_queries prices price_queries dead texts client page e w in
        (result ≡ ok tt)
        × (dead.rows end.db ≡ dead.rows w.db ++ letter page e ∷ [])
        × (coins.rows end.db ≡ coins.rows w.db)
  unfolding give_up
  gives_up page e w =
      let (d', inserted, rows) =
        dead_laws.insert_done (letter page e) w.db (none_apart (letter page e) (dead.rows w.db)) in
      ground (
        arith,
        written page e w.db d' inserted,
        rows,
        insert_keeps (letter page e) w.db d' inserted,
      )

  attempted-rows :
      (now page : ℕ) (w : World S D)
      → (dead.rows
            (attempted r coins coin_queries prices price_queries dead texts client sleep draw now
              page w).db
          ≡ dead.rows w.db)
        × (coins.rows
              (attempted r coins coin_queries prices price_queries dead texts client sleep draw now
                page w).db
            ≡ coins.rows w.db)
  unfolding fetch_and_store_page
  attempted-rows now page w =
      let (e, p) =
        page_fails r laws coins coin_queries prices price_queries dead texts client sleep draw
          (fetch_markets client coins_per_page page w) (failing page w) in
      ground (arith, p, fetch_keeps page w)

  failed_attempt :
      (now page : ℕ) (w : World S D)
      → (e : Error) × ((fetch_and_store_page r coins coin_queries prices price_queries dead texts
            client draw page now
            (record { world = w; pending = w.db })).0
          ≡ err e)
        × (error_of (fetch_markets client coins_per_page page w).0 ≡ some e)
  unfolding fetch_and_store_page
  failed_attempt now page w =
      let (e, p) =
        page_fails r laws coins coin_queries prices price_queries dead texts client sleep draw
          (fetch_markets client coins_per_page page w) (failing page w) in
      (e, rw p refl, rw p refl)

  attempt-letter :
      (now page left : ℕ) (w : World S D)
      → let (result, end) =
          attempt_page r coins coin_queries prices price_queries dead texts client sleep draw now
            page left w in
        (result ≡ ok 0)
        × (coins.rows end.db ≡ coins.rows w.db)
        × ((e : Error) × (dead.rows end.db ≡ dead.rows w.db ++ letter page e ∷ [])
            × (last_error r coins coin_queries prices price_queries dead texts client sleep draw now
                  page left w
                ≡ some e))
  unfolding attempt_page
  attempt-letter now page zero w =
      let (e, p, last) = failed_attempt now page w in
      let (returned, rows, same) = gives_up page e (
        attempted r coins coin_queries prices price_queries dead texts client sleep draw now page
          w) in
      let (kept, same_coins) = attempted-rows now page w in
      (
        rw p (rw returned refl),
        rw p (rw returned (same ∙ same_coins)),
        (e, rw p (rw returned (rows ∙ ap (λ l. l ++ letter page e ∷ []) kept)), last),
      )
  attempt-letter now page (suc left) w =
      let (e, p, _) = failed_attempt now page w in
      let w' = sleep left (
        attempted r coins coin_queries prices price_queries dead texts client sleep draw now page
          w) in
      let (returned, same, (e', rows, last)) = attempt-letter now page left w' in
      let (kept, same_coins) = attempted-rows now page w in
      let (slept, slept_coins) = sleep_keeps left (
        attempted r coins coin_queries prices price_queries dead texts client sleep draw now page
          w) in
      (
        rw p returned,
        rw p (same ∙ slept_coins ∙ same_coins),
        (e', rw p (rows ∙ ap (λ l. l ++ letter page e' ∷ []) (slept ∙ kept)), last),
      )

  -- While every request to the provider fails, neither the requests nor the other tasks write dead
  -- letters or coins, and a new dead letter changes no coin: the loop over the pages returns that it
  -- stored no coin and changes none, and leaves one open dead letter for each page, in the order of
  -- the pages: its text is that of the error of the last of the three attempts at the page, cut off
  -- after 2000 characters.
  pub refresh_pages-LettersFor :
      (now page pages : ℕ) (w : World S D)
      → let (result, end) =
          refresh_pages r coins coin_queries prices price_queries dead texts client sleep draw now
            page pages w in
        (result ≡ ok 0)
        × (coins.rows end.db ≡ coins.rows w.db)
        × ((ls : List DeadLetter) × (dead.rows end.db ≡ dead.rows w.db ++ ls)
            × LettersFor r coins coin_queries prices price_queries dead texts client sleep draw now
                page pages w ls)
  unfolding refresh_pages
  refresh_pages-LettersFor now page zero w =
      (refl, refl, ([], sym (append-nil (dead.rows w.db)), tt))
  refresh_pages-LettersFor now page (suc pages) w =
      let (returned, same, (e, rows, last)) = attempt-letter now page (max_retries - 1) w in
      let w' =
        after_page r coins coin_queries prices price_queries dead texts client sleep draw now page
          w in
      let (returned', same', (ls, rows', letters)) =
        refresh_pages-LettersFor now (page + 1) pages w' in
      (
        rw returned (rw returned' refl),
        rw returned (rw returned' (same' ∙ same)),
        (
          letter page e ∷ ls,
          rw returned (
              rw returned' (
                rows'
                ∙ ap (λ l. l ++ ls) rows
                ∙ append_assoc (dead.rows w.db) (letter page e ∷ []) ls)),
          (refl, rw last (first_chars-IsCut 2000 (client.describe e)), refl, letters),
        ),
      )
