-- ===== src/Scaling/Bucket.antt =====
-- A bucket of S3 over a run: what the uploads of the trace left in it, and that the calls of the
-- scripts in experiments/scripts/ read it so.
use text.Mathlib.Text.{starts_with}
use torr_bsds.Base.{
  ℕ, suc, ◌≤◌, String, ◌≡◌, Bool, true, false, ◌&&◌, Option, none, some, List, [], ◌∷◌, str_eq,
  if◌then◌else◌,
}
use torr_bsds.Runtime.Json.{Result, ok, err}
use torr_bsds.Runtime.Exec.{Event, Trace, called, put_object}
use torr_bsds.Scaling.{Store, contents}
use torr_bsds.Scaling.Latest.{contains}

abbrev pub is_some : Option (List ℕ) → Bool
is_some none = false
is_some (some _) = true

-- What `put_object` answers to a bucket, a key and a body after a trace.
abbrev pub Put : Type 0
Put = Trace → String → String → List ℕ → Result (Unit {0})

module _ (put : Put) (bucket : String) where
  abbrev is_ok : Result (Unit {0}) → Bool
  is_ok (ok _) = true
  is_ok (err _) = false

  -- An upload that is accepted replaces the object, and one that is refused changes nothing.
  abbrev pub after : String → Event → Trace → Option (List ℕ) → Option (List ℕ)
  after key (called (put_object b k body)) t old =
      if str_eq bucket b && (str_eq key k && is_ok (put t b k body)) then some body else old
  after key _ t old = old

  -- The body that the bucket has for a key.
  unfoldable pub stored : String → Trace → Option (List ℕ)
  stored key [] = none
  stored key (e ∷ t) = after key e t (stored key t)

  abbrev one_more : Event → ℕ → ℕ
  one_more (called (put_object b k body)) n = suc n
  one_more _ n = n

  -- How many uploads were tried, of which the bucket has at most as many objects.
  unfoldable pub puts : Trace → ℕ
  puts [] = 0
  puts (e ∷ t) = one_more e (puts t)

  -- A listing has the keys with the prefix, if they fit in one answer, which holds 1000; and an
  -- object reads as it was stored.
  pub record IsBucket (store : Store) : Type 0 where
    pub listing :
        (t : Trace) (prefix : String)
        → puts t ≤ 1000
        → (listed : Option (List String)) × (store.list_objects t bucket prefix ≡ ok listed)
          × ((key : String)
              → contains key (contents listed) ≡ (starts_with key prefix && is_some (stored key t)))
    pub getting :
        (t : Trace) (key : String) (body : List ℕ)
        → stored key t ≡ some body
        → store.get_object t bucket key ≡ ok body
