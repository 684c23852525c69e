-- ===== src/Idempotency.antt =====
-- app/core/idempotency.py. The values that are stored are JSON already, so that the copy through
-- `json.loads(json.dumps(value))` changes nothing.
pub mod Keys
use Prim.Native.String
use crypto_back.Prelude.{ℕ, String, Option, none, some, str_eq, if◌then◌else◌}
use crypto_back.Json.{Json}
use crypto_back.Redis.{Redis}
use crypto_back.Cache.{cache_get, cache_set}

-- `_TTL`, 24 hours
abbrev pub idempotency_ttl : ℕ
idempotency_ttl = 86400

-- `f"idempotency:{key}"`
abbrev pub idempotency_key : String → String
idempotency_key key = String.◌++◌ "idempotency:" key

module _ {S : Type 0} (r : Redis S) where
  unfoldable pub check_idempotency : Option String → S → Option Json
  unfolding cache_get
  check_idempotency none s = none
  check_idempotency (some key) s =
      if str_eq key "" then none else cache_get r (idempotency_key key) s

  unfoldable pub store_idempotency : Option String → Json → ℕ → S → S
  unfolding cache_set
  store_idempotency none value ttl s = s
  store_idempotency (some key) value ttl s =
      if str_eq key "" then s else cache_set r (idempotency_key key) value ttl s
