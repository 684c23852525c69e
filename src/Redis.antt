-- ===== src/Redis.antt =====
-- The Redis server as the program uses it. It is no part of the repository: the commands are a
-- parameter, `Redis`, and what its documentation promises of them a second one, `RedisLaws`. A
-- command is assumed to answer. `scan_iter p` stands for `scan_iter(match=p + "*")`.
pub mod Memory
use crypto_back.Prelude.{
  ℕ, zero, suc, ◌<◌, ◌≡◌, refl, String, Bool, true, false, not, ◌&&◌, Option, none, some, List, [],
  ◌∷◌, str_eq, eq_iff, arith, if◌then◌else◌, is_some, any,
}
use text.Mathlib.Text.{starts_with}
use crypto_back.Json.{Json}

pub record Redis (S : Type 0) : Type 0 where
  pub get : String → S → Option Json
  -- `setex(key, seconds, value)`
  pub setex : String → ℕ → Json → S → S
  -- `set(key, value, nx=True, px=milliseconds)`, and whether the key was set
  pub set_nx : String → Json → ℕ → S → Bool × S
  pub delete : List String → S → S
  pub scan_iter : String → S → List String

pub record RedisLaws {S : Type 0} (r : Redis S) : Type 0 where
  pub get-setex :
      (k j : String) (ttl : ℕ) (v : Json) (s : S)
      → 0 < ttl
      → r.get j (r.setex k ttl v s) ≡ (if str_eq k j then some v else r.get j s)
  pub set_nx-result :
      (k : String) (v : Json) (px : ℕ) (s : S) → (r.set_nx k v px s).0 ≡ not (is_some (r.get k s))
  pub get-set_nx :
      (k j : String) (v : Json) (px : ℕ) (s : S)
      → 0 < px
      → r.get j (r.set_nx k v px s).1
        ≡ (if str_eq k j && not (is_some (r.get k s)) then some v else r.get j s)
  pub get-delete :
      (ks : List String) (j : String) (s : S)
      → r.get j (r.delete ks s) ≡ (if any (λ k. str_eq k j) ks then none else r.get j s)
  -- every key with the prefix is returned, and none without it
  pub scan_iter_complete :
      (p j : String) (s : S)
      → is_some (r.get j s) ≡ true
      → starts_with j p ≡ true
      → any (λ k. str_eq k j) (r.scan_iter p s) ≡ true
  pub scan_iter_sound :
      (p j : String) (s : S)
      → any (λ k. str_eq k j) (r.scan_iter p s) ≡ true
      → starts_with j p ≡ true
