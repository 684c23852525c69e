-- ===== src/Worker/Served.antt =====
-- The details that a page of the refresh leaves in Redis (app/worker/refresh_job.py), as the API
-- reads them (app/services/crypto_service.py).
use Prim.Native.String
use text.Mathlib.TextLemmas.{append_cancel_left}
use crypto_back.Prelude.{
  ℕ, ◌≡◌, ◌≢◌, ◌∙◌, refl, sym, ap, String, Option-cases, inl, inr, true, Option, none, some, List,
  [], ◌∷◌, map, ◌==◌, eq_iff, if◌then◌else◌, arith,
}
use crypto_back.Json.{Json, num, truthy, get}
use crypto_back.Prelude.Int.{pos}
use crypto_back.Cache.{cache_get, cache_delete_pattern}
use crypto_back.Cache.Pattern.{get-cache_delete_pattern}
use crypto_back.Exec.{Result, ok}
use crypto_back.Idempotency.Keys.{not_none-truthy}
use crypto_back.World.{World, emit}
use crypto_back.Metrics.{cache_hits}
use crypto_back.Redis.{Redis, RedisLaws}
use crypto_back.Sql.{Table, Queries}
use crypto_back.Coins.{
  Cryptocurrency, CoinValues, get_by_external_ids, elements, coins_of, upsert_many,
}
use crypto_back.Provider.{Client, fetch_markets}
use crypto_back.PriceHistory.{PriceHistory, DeadLetter}
use crypto_back.CoinService.{CoinTexts, get_coin}
use crypto_back.Worker.Keys.{starts_with_apart, alias-ne}
use crypto_back.Worker.{
  store_page, fetch_and_store_page, append_snapshots, coins_per_page, write_through_dict,
  write_through, cache_ttl, Session, fill_cache, scan_delete,
}

module _ {S D : Type 0} (r : Redis S) (laws : RedisLaws r) (coins : Table Cryptocurrency D)
    (coin_queries : Queries Cryptocurrency D) (prices : Table PriceHistory D)
    (price_queries : Queries PriceHistory D) (dead : Table DeadLetter D) (texts : CoinTexts)
    (client : Client (World S D)) where
  -- What the last coin of a page that has a row with the id is cached as.
  abbrev pub served : (String → Option Cryptocurrency) → ℕ → ℕ → List CoinValues → Option Json
  served db_coins now id [] = none
  served db_coins now id (v ∷ vs) = elim (served db_coins now id vs) [
    | some j ↦ some j
    | none ↦ elim (db_coins v.external_id) [
      | none ↦ none
      | some c ↦
          if c.id == id
          then some (
              write_through_dict r coins coin_queries prices price_queries dead texts client now c
                v)
          else none
    ]
  ]

  -- A UUID has one text, which is no alias of an external id.
  pub record AreUuids : Type 0 where
    pub one_text : (m n : ℕ) → texts.uuid_text m ≡ texts.uuid_text n → m ≡ n
    pub no_alias : (e : String) (n : ℕ) → String.◌++◌ "ext:" e ≢ texts.uuid_text n

  abbrev key : ℕ → String
  key id = String.◌++◌ "coins:detail:" (texts.uuid_text id)

  -- One turn of the loop.
  get-setex_twice :
      AreUuids
      → (c : Cryptocurrency) (external_id : String) (payload : Json) (id : ℕ) (s : S)
      → r.get (key id) (
          r.setex
            (String.◌++◌ "coins:detail:ext:" external_id)
            cache_ttl
            payload
            (r.setex (key c.id) cache_ttl payload s))
        ≡ (if c.id == id then some payload else r.get (key id) s)
  get-setex_twice uuids c external_id payload id s = ground (
    arith,
    laws.get-setex (String.◌++◌ "coins:detail:ext:" external_id) (key id) cache_ttl payload
        (r.setex (key c.id) cache_ttl payload s),
    laws.get-setex (key c.id) (key id) cache_ttl payload s,
    eq_iff (String.◌++◌ "coins:detail:ext:" external_id) (key id),
    alias-ne external_id (texts.uuid_text id) (uuids.no_alias external_id id),
    eq_iff (key c.id) (key id),
    append_cancel_left "coins:detail:" (texts.uuid_text c.id) (texts.uuid_text id),
    uuids.one_text c.id id,
  )

  get-write_through :
      AreUuids
      → (db_coins : String → Option Cryptocurrency) (now id : ℕ) (vs : List CoinValues) (s : S)
      → r.get (key id) (
          write_through r coins coin_queries prices price_queries dead texts client db_coins now vs
            s)
        ≡ elim (served db_coins now id vs) [ some j ↦ some j | none ↦ r.get (key id) s ]
  unfolding write_through
  get-write_through uuids db_coins now id [] s = refl
  get-write_through uuids db_coins now id (v ∷ vs) s =
      elim (Option-cases (db_coins v.external_id)) [
        | inl e ↦ ground (arith, e, get-write_through uuids db_coins now id vs s)
        | inr (c, e) ↦
            let payload =
              write_through_dict r coins coin_queries prices price_queries dead texts client now c
                v in
            ground (
              arith,
              e,
              get-setex_twice uuids c v.external_id payload id s,
              get-write_through uuids db_coins now id vs (
                  r.setex (String.◌++◌ "coins:detail:ext:" v.external_id) cache_ttl payload
                    (r.setex (key c.id) cache_ttl payload s)),
            )
      ]

  dict-IsNew :
      (now : ℕ) (c : Cryptocurrency) (v : CoinValues)
      → let j =
          write_through_dict r coins coin_queries prices price_queries dead texts client now c v in
        (truthy j ≡ true) × (get "data_age_seconds" j ≡ some (num (pos 0)))
  unfolding write_through_dict
  dict-IsNew now c v = (refl, refl)

  served-IsNew :
      (db_coins : String → Option Cryptocurrency) (now id : ℕ) (vs : List CoinValues) (j : Json)
      → served db_coins now id vs ≡ some j
      → (truthy j ≡ true) × (get "data_age_seconds" j ≡ some (num (pos 0)))
  served-IsNew db_coins now id [] j h = cc
  served-IsNew db_coins now id (v ∷ vs) j h = elim (Option-cases (served db_coins now id vs)) [
    | inr (x, e) ↦ ground (arith, e, h, served-IsNew db_coins now id vs x e)
    | inl e ↦ elim (Option-cases (db_coins v.external_id)) [
      | inl f ↦ absurd (ground (arith, e, f, h))
      | inr (c, f) ↦ ground (arith, e, f, h, dict-IsNew now c v)
    ]
  ]

  -- The state after the commit, when the cache has been filled.
  fill_cache-key :
      AreUuids
      → (now id : ℕ) (vs : List CoinValues) (s : Session S D) (j : Json)
      → let db_coins =
          get_by_external_ids coins coin_queries
            (map (λ (v : CoinValues). v.external_id) vs)
            s.pending in
        served db_coins now id vs ≡ some j
        → r.get
            (key id)
            (fill_cache r coins coin_queries prices price_queries dead texts client now vs
              s).world.store
          ≡ some j
  unfolding scan_delete cache_delete_pattern
  fill_cache-key uuids now id vs s j h =
      let db_coins =
        get_by_external_ids coins coin_queries (map (λ (v : CoinValues). v.external_id) vs)
          s.pending in
      let filled =
        write_through r coins coin_queries prices price_queries dead texts client db_coins now vs
          s.world.store in
      ground (
        arith,
        h,
        get-write_through uuids db_coins now id vs s.world.store,
        get-cache_delete_pattern r laws "coins:list:" (key id) filled,
        get-cache_delete_pattern r laws "coins:top_movers:" (key id)
            (cache_delete_pattern r "coins:list:" filled),
        starts_with_apart "coins:d" "coins:l" "etail:" "ist:" (texts.uuid_text id) refl refl,
        starts_with_apart "coins:d" "coins:t" "etail:" "op_movers:" (texts.uuid_text id) refl refl,
      )

  -- The database that the statements of a page have made.
  abbrev page_db : (ℕ → ℕ) → ℕ → List CoinValues → World S D → D → D
  page_db draw now vs w d =
      (append_snapshots r coins coin_queries prices price_queries dead texts client now vs
        (upsert_many coins coin_queries draw w.now vs d).1).1

  store_page-fill_cache :
      (draw : ℕ → ℕ) (now n : ℕ) (raw : Json) (cs : List Json) (vs : List CoinValues)
      (s : Session S D)
      → elements raw ≡ ok cs
      → coins_of now cs s ≡ (ok vs, s)
      → let (result, end) =
          store_page r coins coin_queries prices price_queries dead texts client draw now raw s in
        result ≡ ok n
        → let d = page_db draw now vs s.world s.pending in
          end
          ≡ fill_cache r coins coin_queries prices price_queries dead texts client now vs
              (record { world = record s.world { db = d }; pending = d })
  store_page-fill_cache draw now n raw cs vs s listed read done = ground (arith, listed, read, done)

  stored :
      (draw : ℕ → ℕ) (page now : ℕ) (raw : Json) (s : Session S D) (w : World S D)
      → fetch_markets client coins_per_page page s.world ≡ (ok raw, w)
      → truthy raw ≡ true
      → fetch_and_store_page r coins coin_queries prices price_queries dead texts client draw page
          now s
        ≡ store_page r coins coin_queries prices price_queries dead texts client draw now raw
            (record s { world = w })
  unfolding fetch_and_store_page
  stored draw page now raw s w fetched full = ground (arith, fetched, full)

  detail_hit :
      (others : ℕ → World S D → World S D) (id : ℕ) (j : Json) (w : World S D)
      → r.get (key id) w.store ≡ some j
      → truthy j ≡ true
      → get_coin r others coins coin_queries texts id w ≡ (ok j, emit (cache_hits "coins:detail") w)
  unfolding get_coin cache_get
  detail_hit others id j w e full = ground (arith, e, full, not_none-truthy j full)

  -- Once a page is stored, each coin of it that has a row, under the UUID of the row, is served from
  -- the cache for as long as the key stays: as the page gave it, with an age of 0 seconds whatever
  -- the time, and whatever is in the database by then. What is relied on: a UUID has one text, which
  -- does not start with "ext:".
  pub page_served :
      AreUuids
      → (others : ℕ → World S D → World S D) (draw : ℕ → ℕ) (page now n id : ℕ) (raw j : Json)
        (cs : List Json) (vs : List CoinValues) (s : Session S D) (w : World S D)
      → fetch_markets client coins_per_page page s.world ≡ (ok raw, w)
      → truthy raw ≡ true
      → elements raw ≡ ok cs
      → coins_of now cs (record s { world = w }) ≡ (ok vs, record s { world = w })
      → let (result, end) =
          fetch_and_store_page r coins coin_queries prices price_queries dead texts client draw page
            now s in
        result ≡ ok n
        → served
            (get_by_external_ids coins coin_queries
              (map (λ (v : CoinValues). v.external_id) vs)
              end.world.db)
            now
            id
            vs
          ≡ some j
        → (later_db : D) (later : ℕ)
        → let afterwards = record end.world { db = later_db; now = later } in
          (get_coin r others coins coin_queries texts id afterwards
            ≡ (ok j, emit (cache_hits "coins:detail") afterwards))
          × (get "data_age_seconds" j ≡ some (num (pos 0)))
  page_served uuids others draw page now n id raw j cs vs s w fetched full listed read done h
        later_db later =
      let page_s : Session S D = record s { world = w } in
      let e = stored draw page now raw s w fetched full in
      let d = page_db draw now vs w s.pending in
      let before : Session S D = record { world = record w { db = d }; pending = d } in
      let end =
        fill_cache r coins coin_queries prices price_queries dead texts client now vs before in
      let ended =
        ap (λ (o : Result ℕ × Session S D). o.1) e
        ∙ store_page-fill_cache draw now n raw cs vs page_s listed read (rw (sym e) done) in
      let h' = rw ended at h in
      let (full_j, new) =
        served-IsNew
          (get_by_external_ids coins coin_queries (map (λ (v : CoinValues). v.external_id) vs) d)
          now id vs j h' in
      let afterwards : World S D = record end.world { db = later_db; now = later } in
      rw ended
        (detail_hit others id j afterwards (fill_cache-key uuids now id vs before j h') full_j, new)
