-- ===== src/Runtime/Json.antt =====
-- The values that `json.loads` returns, with the dict operations that the clients apply to them.
-- Numbers are the naturals that the protocol carries (ports and status codes).
use Prim.Native.String.{count}
use torr_bsds.Base.{ℕ, ◌+◌, String, Bool, true, false, not, Option, none, some, str_eq, ◌==◌}
use torr_bsds.Base.{if◌then◌else◌}

pub data Exc : Type 0 where
  value_error runtime_error key_error : String → Exc
  type_error attribute_error index_error reschedule : Exc
  system_exit : ℕ → Exc
  -- raised inside a third-party package
  library : String → Exc

pub data Result (A : Type 0) : Type 0 where
  ok : A → Result A
  err : Exc → Result A

mutual
  pub data Json : Type 0 where
    null : Json
    bool : Bool → Json
    num : ℕ → Json
    str : String → Json
    arr : Items → Json
    obj : Fields → Json

  pub data Items : Type 0 where
    nil : Items
    cons : Json → Items → Items

  pub data Fields : Type 0 where
    end : Fields
    field : String → Json → Fields → Fields

unfoldable pub lookup : String → Fields → Option Json
lookup k end = none
lookup k (field j v fs) = if str_eq j k then some v else lookup k fs

-- `d[key]`
unfoldable pub index : Json → String → Result Json
unfolding lookup
index (obj fs) key = elim (lookup key fs) [ none ↦ err (key_error key) | some v ↦ ok v ]
index _ key = err type_error

-- `d.get(key, default)`
unfoldable pub get_or : Json → String → Json → Result Json
unfolding lookup
get_or (obj fs) key default = elim (lookup key fs) [ none ↦ ok default | some v ↦ ok v ]
get_or _ key default = err attribute_error

-- `bool(v)`
unfoldable pub truthy : Json → Bool
truthy null = false
truthy (bool b) = b
truthy (num n) = not (n == 0)
truthy (str s) = not (str_eq s "")
truthy (arr nil) = false
truthy (arr (cons _ _)) = true
truthy (obj end) = false
truthy (obj (field _ _ _)) = true

-- `s.encode()` and the like: the text of a `str`.
unfoldable pub as_str : Json → Exc → Result String
as_str (str s) e = ok s
as_str _ e = err e

count_items : Items → ℕ
count_items nil = 0
count_items (cons _ xs) = count_items xs + 1

count_fields : Fields → ℕ
count_fields end = 0
count_fields (field _ _ fs) = count_fields fs + 1

-- `len(v)`
unfoldable pub len : Json → Result ℕ
unfolding count_items count_fields
len (str s) = ok (count s)
len (arr xs) = ok (count_items xs)
len (obj fs) = ok (count_fields fs)
len _ = err type_error

-- `len(v.get("body", "") or "")`
unfoldable pub body_length : Json → Result ℕ
unfolding get_or truthy len
body_length v = elim (get_or v "body" (str "")) [
  | ok body ↦ len (if truthy body then body else str "")
  | err e ↦ err e
]
