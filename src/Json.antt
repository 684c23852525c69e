-- ===== src/Json.antt =====
-- The JSON trees that the program hands to `json.dumps` and reads back with `json.loads`
-- (app/core/cache.py, app/core/idempotency.py, app/core/exceptions.py). A stored text is kept as
-- the tree that it stands for. A float is kept as a signed number of a fixed unit.
use crypto_back.Prelude.{
  String, Bool, true, false, not, Option, none, some, str_eq, if◌then◌else◌, ◌==◌,
}
use crypto_back.Prelude.Int.{ℤ, pos, negsuc}

mutual
  pub data Json : Type 0 where
    null : Json
    bool : Bool → Json
    num : ℤ → Json
    str : String → Json
    arr : Items → Json
    obj : Fields → Json

  pub data Items : Type 0 where
    nil : Items
    cons : Json → Items → Items

  pub data Fields : Type 0 where
    end : Fields
    field : String → Json → Fields → Fields

-- Python's truth value, as in `if cached:`.
abbrev pub truthy : Json → Bool
truthy null = false
truthy (bool b) = b
truthy (num (pos n)) = not (n == 0)
truthy (num (negsuc n)) = true
truthy (str s) = not (str_eq s "")
truthy (arr nil) = false
truthy (arr (cons x xs)) = true
truthy (obj end) = false
truthy (obj (field k v fs)) = true

-- `d.get(k)` on the fields of an object.
abbrev pub member : String → Fields → Option Json
member k end = none
member k (field j v fs) = if str_eq j k then some v else member k fs

abbrev pub get : String → Json → Option Json
get k (obj fs) = member k fs
get k j = none
