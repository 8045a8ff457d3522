-- ===== src/Recovery/Task/Triple.antt =====
-- What a task makes of the user's fields: from `P` before it to `Q` when it returns, and to `E`
-- when it raises.
use torr_bsds.Base.{String, List, ◌≡◌, refl, Bool, true, false, if◌then◌else◌}
use torr_bsds.Runtime.Json.{Result, Exc, ok, err}
use torr_bsds.Runtime.Exec.{Exec, Trace}
use torr_bsds.Runtime.Env.{Env}
use torr_bsds.Recovery.Task.{
  User, State, Task, interrupt, pure, raise, lift, exec, gets, modify, continue, handle, try, ◌>>=◌,
}

abbrev pub Post : {A : Type 0} → (A → User → Type 0) → (User → Type 0) → Result A × State → Type 0
Post Q E (ok a, s) = Q a s.0
Post Q E (err e, s) = E s.0

pub record Triple {A : Type 0} (P : User → Type 0) (m : Task A) (Q : A → User → Type 0)
    (E : User → Type 0) : Type 0 where
  pub at : (s : State) → P s.0 → Post Q E (m s)

module _ {A : Type 0} {P : User → Type 0} {Q : A → User → Type 0} {E : User → Type 0} where
  pub pure_triple : (a : A) → ((u : User) → P u → Q a u) → Triple P (pure a) Q E
  pure_triple a h = record { at = λ s p. h s.0 p }

  pub raise_triple : (e : Exc) → ((u : User) → P u → E u) → Triple P (raise {A = A} e) Q E
  raise_triple e h = record { at = λ s p. h s.0 p }

  pub lift_triple :
      (r : Result A)
      → ((a : A) (u : User) → r ≡ ok a → P u → Q a u)
      → ((u : User) → P u → E u)
      → Triple P (lift r) Q E
  lift_triple (ok a) h k = record { at = λ s p. h a s.0 refl p }
  lift_triple (err e) h k = record { at = λ s p. k s.0 p }

  pub exec_triple :
      (env : Env) (m : Exec A)
      → ((a : A) (t u : Trace) (user : User) (polls : List (List String))
          → m t ≡ (ok a, u)
          → P user
          → Q a (interrupt polls user))
      → ((user : User) (polls : List (List String)) → P user → E (interrupt polls user))
      → Triple P (exec env m) Q E
  exec_triple env m h k = record { at = λ s p. split (m s.1) s p refl }
    where
      split :
          (r : Result A × Trace) (s : State)
          → P s.0
          → m s.1 ≡ r
          → Post Q E (r.0, (interrupt (env.polled r.1) s.0, r.1))
      split (ok a, u) s p e = h a s.1 u s.0 (env.polled u) e p
      split (err x, u) s p e = k s.0 (env.polled u) p

  pub gets_triple : (f : User → A) → ((u : User) → P u → Q (f u) u) → Triple P (gets f) Q E
  gets_triple f h = record { at = λ s p. h s.0 p }

-- From a stronger condition before, to weaker ones after.
module _ {A : Type 0} {P P' : User → Type 0} {Q Q' : A → User → Type 0} {E E' : User → Type 0} where
  pub weaken :
      (m : Task A)
      → ((u : User) → P' u → P u)
      → ((a : A) (u : User) → Q a u → Q' a u)
      → ((u : User) → E u → E' u)
      → Triple P m Q E
      → Triple P' m Q' E'
  weaken m before after raised t = record { at = λ s p. split (m s) (t.at s (before s.0 p)) }
    where
      split : (r : Result A × State) → Post Q E r → Post Q' E' r
      split (ok a, s) q = after a s.0 q
      split (err e, s) q = raised s.0 q

module _ {P : User → Type 0} {Q : Unit {0} → User → Type 0} {E : User → Type 0} where
  pub modify_triple : (f : User → User) → ((u : User) → P u → Q tt (f u)) → Triple P (modify f) Q E
  modify_triple f h = record { at = λ s p. h s.0 p }

module _ {A B : Type 0} {P : User → Type 0} {Q : A → User → Type 0} {R : B → User → Type 0}
    {E : User → Type 0} where
  pub bind_triple :
      (m : Task A) (f : A → Task B)
      → Triple P m Q E
      → ((a : A) → Triple (Q a) (f a) R E)
      → Triple P (m >>= f) R E
  bind_triple m f tm tf = record { at = λ s p. split (m s) (tm.at s p) }
    where
      split : (r : Result A × State) → Post Q E r → Post R E (continue r f)
      split (ok a, s) q = (tf a).at s q
      split (err e, s) q = q

module _ {A : Type 0} {P : User → Type 0} {Q : A → User → Type 0} {E E' : User → Type 0} where
  pub try_triple :
      (m : Task A) (h : Exc → Task A)
      → Triple P m Q E
      → ((e : Exc) → Triple E (h e) Q E')
      → Triple P (try m h) Q E'
  try_triple m h tm th = record { at = λ s p. split (m s) (tm.at s p) }
    where
      split : (r : Result A × State) → Post Q E r → Post Q E' (handle r h)
      split (ok a, s) q = q
      split (err e, s) q = (th e).at s q

module _ {A : Type 0} {P : User → Type 0} {Q : A → User → Type 0} {E : User → Type 0} where
  pub if_triple :
      (b : Bool) (m n : Task A)
      → (b ≡ true → Triple P m Q E)
      → (b ≡ false → Triple P n Q E)
      → Triple P (if b then m else n) Q E
  if_triple true m n h k = h refl
  if_triple false m n h k = k refl
