-- ===== src/Idempotency/Keys.antt =====
-- What is stored under an idempotency key (app/core/idempotency.py) is found under it.
use crypto_back.Prelude.{
  ℕ, ◌<◌, ◌≡◌, ◌≢◌, refl, String, true, false, some, str_eq, eq_iff, eq_refl, arith,
}
use crypto_back.Json.{Json, null, bool, num, str, arr, obj, truthy}
use crypto_back.Redis.{Redis, RedisLaws}
use crypto_back.Cache.{not_none, cache_get, cache_set}
use crypto_back.Idempotency.{check_idempotency, store_idempotency, idempotency_key}

pub not_none-truthy : (j : Json) → truthy j ≡ true → not_none (some j) ≡ some j
not_none-truthy null h = cc
not_none-truthy (bool b) h = refl
not_none-truthy (num z) h = refl
not_none-truthy (str x) h = refl
not_none-truthy (arr x) h = refl
not_none-truthy (obj x) h = refl

module _ {S : Type 0} (r : Redis S) (laws : RedisLaws r) (key : String) (key_given : key ≢ "") where
  key_not_empty : str_eq key "" ≡ false
  key_not_empty = ground (arith, key_given, eq_iff key "")

  pub check_idempotency-store_idempotency :
      (value : Json) (ttl : ℕ) (s : S)
      → truthy value ≡ true
      → 0 < ttl
      → check_idempotency r (some key) (store_idempotency r (some key) value ttl s) ≡ some value
  unfolding check_idempotency store_idempotency cache_get cache_set
  check_idempotency-store_idempotency value ttl s full pos = rw key_not_empty (
      rw (laws.get-setex (idempotency_key key) (idempotency_key key) ttl value s pos)
        (rw (eq_refl (idempotency_key key)) (not_none-truthy value full)))
