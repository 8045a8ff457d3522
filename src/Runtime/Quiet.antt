-- ===== src/Runtime/Quiet.antt =====
-- The reports in a trace, and actions that add none to it, whether they return or raise.
use torr_bsds.Base.{ℕ, Bool, true, false, List, [], ◌∷◌, ◌≡◌, refl, ◌∙◌, if◌then◌else◌}
use torr_bsds.Runtime.Json.{Result, ok, err, Exc}
use torr_bsds.Runtime.Exec.{
  Exec, Trace, Request, Report, fired, pure, lift, raise_unless, ◌>>=◌, continue,
}
use torr_bsds.Runtime.Env.{Env, send, urandom, monotonic, uuid4}

-- Newest first, as in the trace.
unfoldable pub reports : Trace → List Report
reports [] = []
reports (fired r ∷ t) = r ∷ reports t
reports (_ ∷ t) = reports t

-- An action that leaves what is observed of the trace as it is, whether it returns or raises.
abbrev pub Unseen : {A X : Type 0} → (Trace → X) → Exec A → Type 0
Unseen seen m = (t : Trace) → seen (m t).1 ≡ seen t

abbrev pub Quiet : {A : Type 0} → Exec A → Type 0
Quiet m = Unseen reports m

module _ {A X : Type 0} (seen : Trace → X) where
  pub Unseen-pure : (a : A) → Unseen seen (pure a)
  Unseen-pure a t = refl

  pub Unseen-lift : (r : Result A) → Unseen seen (lift r)
  Unseen-lift r t = refl

  pub Unseen-if :
      (b : Bool) (m n : Exec A) → Unseen seen m → Unseen seen n → Unseen seen (if b then m else n)
  Unseen-if true m n p q = p
  Unseen-if false m n p q = q

module _ {X : Type 0} (seen : Trace → X) where
  pub Unseen-raise_unless : (b : Bool) (e : Exc) → Unseen seen (raise_unless b e)
  Unseen-raise_unless b e t = refl

module _ {A B X : Type 0} {seen : Trace → X} where
  pub Unseen-bind :
      (m : Exec A) (f : A → Exec B)
      → Unseen seen m
      → ((a : A) → Unseen seen (f a))
      → Unseen seen (m >>= f)
  Unseen-bind m f p q t = after (m t) (p t)
    where
      after : (r : Result A × Trace) → seen r.1 ≡ seen t → seen (continue r f).1 ≡ seen t
      after (ok a, u) h = q a u ∙ h
      after (err e, u) h = h

module _ (env : Env) where
  pub Quiet-send : (r : Request) → Quiet (send env r)
  unfolding send reports
  Quiet-send r t = refl

  pub Quiet-urandom : (n : ℕ) → Quiet (urandom env n)
  unfolding urandom reports
  Quiet-urandom n t = refl

  pub Quiet-monotonic : Quiet (monotonic env)
  unfolding monotonic reports
  Quiet-monotonic t = refl

  pub Quiet-uuid4 : Quiet (uuid4 env)
  unfolding uuid4 reports
  Quiet-uuid4 t = refl

pub ruleset unseen_rules = (Unseen-pure, Unseen-lift, Unseen-if, Unseen-raise_unless, Unseen-bind)

pub ruleset quiet_rules = (unseen_rules, Quiet-send, Quiet-urandom, Quiet-monotonic, Quiet-uuid4)
