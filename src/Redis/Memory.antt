-- ===== src/Redis/Memory.antt =====
-- A store in memory that answers as Redis is documented to, with nothing expiring. It shows that
-- `RedisLaws` can hold.
use crypto_back.Prelude.{
  ◌≡◌, refl, String, true, false, Option, none, some, List, [], ◌∷◌, str_eq, eq_iff, arith,
  if◌then◌else◌, is_some, any,
}
use text.Mathlib.Text.{starts_with}
use crypto_back.Json.{Json}
use crypto_back.Redis.{Redis, RedisLaws}

abbrev pub Memory : Type 0
Memory = List (String × Json)

abbrev pub find : String → Memory → Option Json
find k [] = none
find k ((j, v) ∷ m) = if str_eq j k then some v else find k m

abbrev pub without : List String → Memory → Memory
without ks [] = []
without ks ((j, v) ∷ m) = if any (λ k. str_eq k j) ks then without ks m else (j, v) ∷ without ks m

abbrev pub keys_with : String → Memory → List String
keys_with p [] = []
keys_with p ((j, v) ∷ m) = if starts_with j p then j ∷ keys_with p m else keys_with p m

abbrev pub memory : Redis Memory
memory = record {
  get = find;
  setex = λ k ttl v m. (k, v) ∷ m;
  set_nx = λ k v px m. if is_some (find k m) then (false, m) else (true, (k, v) ∷ m);
  delete = without;
  scan_iter = keys_with;
}

find-without :
    (ks : List String) (j : String) (m : Memory)
    → find j (without ks m) ≡ (if any (λ k. str_eq k j) ks then none else find j m)
find-without ks j [] = ground arith
find-without ks j ((i, v) ∷ m) = ground (arith, find-without ks j m, eq_iff i j)

keys_with_complete :
    (p j : String) (m : Memory)
    → is_some (find j m) ≡ true
    → starts_with j p ≡ true
    → any (λ k. str_eq k j) (keys_with p m) ≡ true
keys_with_complete p j [] h s = cc
keys_with_complete p j ((i, v) ∷ m) h s = ground (arith, keys_with_complete p j m, eq_iff i j)

keys_with_sound :
    (p j : String) (m : Memory)
    → any (λ k. str_eq k j) (keys_with p m) ≡ true
    → starts_with j p ≡ true
keys_with_sound p j [] h = cc
keys_with_sound p j ((i, v) ∷ m) h = ground (arith, keys_with_sound p j m, eq_iff i j)

pub memory-RedisLaws : RedisLaws memory
memory-RedisLaws = record {
  get-setex = λ k j ttl v s h. refl;
  set_nx-result = λ k v px s. ground arith;
  get-set_nx = λ k j v px s h. ground (arith, eq_iff k j);
  get-delete = find-without;
  scan_iter_complete = keys_with_complete;
  scan_iter_sound = keys_with_sound;
}
