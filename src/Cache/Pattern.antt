-- ===== src/Cache/Pattern.antt =====
-- `cache_delete_pattern` of app/core/cache.py, in batches of a hundred keys.
use text.Mathlib.Text.{starts_with}
use crypto_back.Prelude.{
  ◌≡◌, refl, String, Bool, true, none, List, [], ◌∷◌, ◌++◌, arith, str_eq, if◌then◌else◌, any,
}
use crypto_back.Redis.{Redis, RedisLaws}
use crypto_back.Cache.{delete_batches, cache_delete_pattern}

any-append :
    {A : Type 0} (p : A → Bool) (xs ys : List A)
    → any p (xs ++ ys) ≡ (if any p xs then true else any p ys)
any-append p [] ys = refl
any-append p (x ∷ xs) ys = ground (arith, any-append p xs ys)

module _ {S : Type 0} (r : Redis S) (laws : RedisLaws r) where
  open laws use {get-delete, scan_iter_complete, scan_iter_sound}

  -- The batching loses no key and adds none.
  get-delete_batches :
      (keys batch : List String) (j : String) (s : S)
      → r.get j (delete_batches r keys batch s) ≡ (
          if any (λ k. str_eq k j) batch
          then none
          else if any (λ k. str_eq k j) keys
          then none
          else r.get j s)
  unfolding delete_batches
  get-delete_batches [] [] j s = refl
  get-delete_batches [] (k ∷ batch) j s = ground (arith, get-delete (k ∷ batch) j s)
  get-delete_batches (key ∷ keys) batch j s = ground (
    arith,
    get-delete_batches keys [] j (r.delete (batch ++ key ∷ []) s),
    get-delete_batches keys (batch ++ key ∷ []) j s,
    get-delete (batch ++ key ∷ []) j s,
    any-append (λ k. str_eq k j) batch (key ∷ []),
  )

  -- `cache_delete_pattern` removes exactly the keys with the prefix.
  pub get-cache_delete_pattern :
      (prefix j : String) (s : S)
      → r.get j (cache_delete_pattern r prefix s)
        ≡ (if starts_with j prefix then none else r.get j s)
  unfolding cache_delete_pattern
  get-cache_delete_pattern prefix j s = ground (
    arith,
    get-delete_batches (r.scan_iter prefix s) [] j s,
    scan_iter_complete prefix j s,
    scan_iter_sound prefix j s,
  )
