-- ===== src/CoinService/Invalidation.antt =====
-- What `refresh` of app/services/crypto_service.py leaves in the cache.
use text.Mathlib.Text.{starts_with}
use crypto_back.Prelude.{
  ℕ, ◌≡◌, refl, String, Bool, ◌||◌, ◌&&◌, not, none, some, List, [], ◌∷◌, if◌then◌else◌, is_some,
  arith,
}
use crypto_back.Json.{Json}
use crypto_back.Exec.{
  Result, ok, err, Exec, error_of, continue, modify, ◌>>◌, lift, pure, Keeps, keeps_rules, ◌>>=◌,
}
use crypto_back.Metrics.{coin_refresh_total, coins_updated}
use crypto_back.World.{World, emit}
use crypto_back.Redis.{Redis, RedisLaws}
use crypto_back.Sql.{Table, Queries}
use crypto_back.Cache.Pattern.{get-cache_delete_pattern}
use crypto_back.Cache.{cache_delete_pattern}
use crypto_back.Coins.{Cryptocurrency, coin_values, coins_of, elements, upsert_many}
use crypto_back.Provider.{Client, fetch_markets}
use crypto_back.Auth.{on_db}
use crypto_back.CoinService.{CoinTexts, invalidate, store_listing, refresh_coins}

coin_values-Keeps :
    {S X : Type 0} (look : S → X) (now : ℕ) (c : Json) → Keeps look (coin_values now c)
unfolding coin_values
coin_values-Keeps look now c = search (keeps_rules) depth 40

coins_of-Keeps :
    {S X : Type 0} (look : S → X) (now : ℕ) (cs : List Json) → Keeps look (coins_of now cs)
unfolding coins_of
coins_of-Keeps look now [] = search keeps_rules
coins_of-Keeps look now (c ∷ cs) =
    search (keeps_rules, coin_values-Keeps, coins_of-Keeps look now cs)

-- A key that a refresh makes stale.
abbrev pub is_derived : String → Bool
is_derived j =
    starts_with j "coins:list:"
    || (starts_with j "coins:detail:" || starts_with j "coins:top_movers:")

on_db-Keeps :
    (S : Type 0) {D A : Type 0} (m : Exec D A) → Keeps (λ (w : World S D). w.store) (on_db m)
unfolding Keeps
on_db-Keeps S m w = refl

module _ {S D : Type 0} (r : Redis S) (laws : RedisLaws r) (others : ℕ → World S D → World S D)
    (t : Table Cryptocurrency D) (q : Queries Cryptocurrency D) (texts : CoinTexts) where
  store_listing_keeps :
      (draw : ℕ → ℕ) (raw : Json) (w : World S D)
      → (store_listing r others t q texts draw raw w).1.store ≡ w.store
  unfolding store_listing Keeps
  store_listing_keeps draw raw w =
      let rest : Keeps (λ (w : World S D). w.store)
          (do
            cs ← lift (elements raw)
            vs ← coins_of w.now cs
            on_db (upsert_many t q draw w.now vs)) =
        search (keeps_rules, coins_of-Keeps, on_db-Keeps) in
      rest w

  get-invalidate :
      (j : String) (w : World S D)
      → r.get j (invalidate r others t q texts w).store
        ≡ (if is_derived j then none else r.get j w.store)
  unfolding invalidate
  get-invalidate j w = ground (
    arith,
    get-cache_delete_pattern r laws "coins:list:" j w.store,
    get-cache_delete_pattern r laws "coins:detail:" j
        (cache_delete_pattern r "coins:list:" w.store),
    get-cache_delete_pattern r laws "coins:top_movers:" j
        (cache_delete_pattern r "coins:detail:" (cache_delete_pattern r "coins:list:" w.store)),
  )

  -- What comes after the coins are stored.
  abbrev finish : ℕ → Exec (World S D) ℕ
  finish count =
      modify (emit (coins_updated count)) >> (modify (invalidate r others t q texts) >> pure count)

  after_store :
      (j : String) (s : S) (stored : Result ℕ) (w : World S D)
      → w.store ≡ s
      → let (result, w') = continue stored finish w in
        r.get j w'.store
        ≡ (if is_derived j && not (is_some (error_of result)) then none else r.get j s)
  after_store j s (ok n) w e = ground (arith, get-invalidate j (emit (coins_updated n) w))
  after_store j s (err x) w e = ground arith

  after_fetch :
      (draw : ℕ → ℕ) (j : String) (fetched : Result Json) (w : World S D)
      → let (result, w') =
          continue fetched (λ raw. store_listing r others t q texts draw raw >>= finish) w in
        r.get j w'.store
        ≡ (if is_derived j && not (is_some (error_of result)) then none else r.get j w.store)
  after_fetch draw j (ok raw) w =
      let (stored, w') = store_listing r others t q texts draw raw w in
      after_store j w.store stored w' (store_listing_keeps draw raw w)
  after_fetch draw j (err e) w = ground arith

  -- A refresh that returns has removed every cached list, detail and list of movers, and no other
  -- key; one that raises leaves the cache as the request to the provider left it.
  pub get-refresh_coins :
      (client : Client (World S D)) (draw : ℕ → ℕ) (j : String) (w : World S D)
      → let (result, w') = refresh_coins r others t q texts (some client) draw w in
        r.get j w'.store ≡ (
          if is_derived j && not (is_some (error_of result))
          then none
          else r.get j (fetch_markets client 100 1 (emit coin_refresh_total w)).1.store)
  unfolding refresh_coins
  get-refresh_coins client draw j w =
      let (fetched, w') = fetch_markets client 100 1 (emit coin_refresh_total w) in
      after_fetch draw j fetched w'
