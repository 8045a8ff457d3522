-- ===== src/Runtime/Exec.antt =====
-- Actions: they read and extend the trace of effects, newest first, and return or raise.
use torr_bsds.Base.{ℕ, String, Option, List, ◌∷◌, ◌≡◌, refl, Bool, ◌⊎◌, inl, inr}
use torr_bsds.Base.{if◌then◌else◌}
use torr_bsds.Runtime.Json.{Json, Exc, Result, ok, err}

-- An HTTP request: the URL, the query or the JSON body, and the timeout in seconds.
pub data Request : Type 0 where
  get post : String → Json → ℕ → Request

-- What `events.request.fire` is given.
pub record Report : Type 0 where
  pub request_type : String
  pub name : String
  pub response_time : ℕ
  pub response_length : ℕ
  pub exception : Option Exc

-- What the scripts do beside HTTP: calls of AWS and of Locust's client, a pause, and a file
-- written.
pub data Call : Type 0 where
  list_tasks describe_tasks stop_task : String → String → Call
  -- cluster, service, metric, start and end
  get_metric : String → String → String → ℕ → ℕ → Call
  list_objects get_object : String → String → Call
  -- a request of Locust's own client: method, path, body and name
  client_request : String → String → String → String → Call
  -- file, bucket and key
  upload_file : String → String → String → Call
  sleep : ℕ → Call
  write_file : String → List ℕ → Call
  put_object : String → String → List ℕ → Call

pub data Event : Type 0 where
  sent : Request → Event
  drew : ℕ → Event
  read_clock read_time made_uuid : Event
  fired : Report → Event
  called : Call → Event

abbrev pub Trace : Type 0
Trace = List Event

abbrev pub Exec : Type 0 → Type 0
Exec A = Trace → Result A × Trace

module _ {A : Type 0} where
  abbrev pub pure : A → Exec A
  pure a t = (ok a, t)

  abbrev pub raise : Exc → Exec A
  raise e t = (err e, t)

  abbrev pub lift : Result A → Exec A
  lift r t = (r, t)

abbrev pub continue : {A B : Type 0} → Result A × Trace → (A → Exec B) → Result B × Trace
continue (ok a, t) f = f a t
continue (err e, t) f = (err e, t)

infixl 5 ◌>>=◌ ◌>>◌
abbrev pub ◌>>=◌ : {A B : Type 0} → Exec A → (A → Exec B) → Exec B
◌>>=◌ m f t = continue (m t) f

abbrev pub ◌>>◌ : {A B : Type 0} → Exec A → Exec B → Exec B
m >> k = m >>= λ _. k

-- `try: m; except Exception as exc: h exc`. Inside it, none of these files calls `sys.exit`, whose
-- exception `except Exception` lets pass.
abbrev pub handle : {A : Type 0} → Result A × Trace → (Exc → Exec A) → Result A × Trace
handle (ok a, t) h = (ok a, t)
handle (err e, t) h = h e t

abbrev pub try : {A : Type 0} → Exec A → (Exc → Exec A) → Exec A
try m h t = handle (m t) h

abbrev pub emit : Event → Exec (Unit {0})
emit e t = (ok tt, e ∷ t)

abbrev pub raise_unless : Bool → Exc → Exec (Unit {0})
raise_unless b e t = (if b then ok tt else err e, t)

-- Inversion of a block that returned.
pub >>=-ok :
    {A B : Type 0} (m : Exec A) (f : A → Exec B) (t : Trace) {b : B} {t' : Trace}
    → (m >>= f) t ≡ (ok b, t')
    → (a : A) × (u : Trace) × (m t ≡ (ok a, u)) × (f a u ≡ (ok b, t'))
>>=-ok {A} {B} m f t {b} {t'} h = split (m t) h
  where
    split :
        (r : Result A × Trace)
        → continue r f ≡ (ok b, t')
        → (a : A) × (u : Trace) × (r ≡ (ok a, u)) × (f a u ≡ (ok b, t'))
    split (ok a, u) e = (a, u, refl, e)
    split (err x, u) e = cc

-- The two ways in which a pure call and an action end.
pub Result-cases : {A : Type 0} (r : Result A) → ((a : A) × (r ≡ ok a)) ⊎ ((e : Exc) × (r ≡ err e))
Result-cases (ok a) = inl (a, refl)
Result-cases (err e) = inr (e, refl)

pub Outcome-cases :
    {A : Type 0} (r : Result A × Trace)
    → ((a : A) × (u : Trace) × (r ≡ (ok a, u))) ⊎ ((e : Exc) × (u : Trace) × (r ≡ (err e, u)))
Outcome-cases (ok a, u) = inl (a, u, refl)
Outcome-cases (err e, u) = inr (e, u, refl)

pub ok-inj : {A : Type 0} {a b : A} → ok a ≡ ok b → a ≡ b
ok-inj e = cc

pub ok_ne_err : {A : Type 0} {a : A} {e : Exc} → ok a ≡ err e → ⊥
ok_ne_err h = cc
