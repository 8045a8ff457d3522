-- ===== src/Recovery/Task/Keeps.antt =====
-- Tasks that keep a condition on the user, whether they return or raise.
use torr_bsds.Base.{ℕ, String, Bool, List, if◌then◌else◌}
use torr_bsds.Runtime.Json.{Result, Exc}
use torr_bsds.Runtime.Exec.{Exec}
use torr_bsds.Runtime.Env.{Env, strftime}
use torr_bsds.Recovery.Task.{
  User, interrupt, Row, Task, pure, raise, lift, exec, gets, try, ◌>>=◌, log_csv_row,
}
use torr_bsds.Recovery.Task.Triple.{
  Triple, pure_triple, raise_triple, lift_triple, exec_triple, gets_triple, modify_triple,
  bind_triple, try_triple, if_triple,
}

abbrev pub Keeps : {A : Type 0} → (User → Type 0) → Task A → Type 0
Keeps P m = Triple P m (λ _. P) P

-- A condition that no poll changes.
pub record IgnoresPolls (P : User → Type 0) : Type 0 where
  pub at : (u : User) (polls : List (List String)) → P u → P (interrupt polls u)

module _ {A : Type 0} {P : User → Type 0} where
  pub Keeps-pure : (a : A) → Keeps P (pure a)
  Keeps-pure a = pure_triple a (λ u p. p)

  pub Keeps-raise : (e : Exc) → Keeps P (raise {A = A} e)
  Keeps-raise e = raise_triple e (λ u p. p)

  pub Keeps-lift : (r : Result A) → Keeps P (lift r)
  Keeps-lift r = lift_triple r (λ a u e p. p) (λ u p. p)

  pub Keeps-exec : (env : Env) (m : Exec A) → IgnoresPolls P → Keeps P (exec env m)
  Keeps-exec env m ignores =
      exec_triple env m (λ a t v u polls e p. ignores.at u polls p)
        (λ u polls p. ignores.at u polls p)

  pub Keeps-gets : (f : User → A) → Keeps P (gets f)
  Keeps-gets f = gets_triple f (λ u p. p)

  pub Keeps-try :
      (m : Task A) (h : Exc → Task A) → Keeps P m → ((e : Exc) → Keeps P (h e)) → Keeps P (try m h)
  Keeps-try m h km kh = try_triple m h km kh

  pub Keeps-if : (b : Bool) (m n : Task A) → Keeps P m → Keeps P n → Keeps P (if b then m else n)
  Keeps-if b m n km kn = if_triple b m n (λ _. km) (λ _. kn)

module _ {A B : Type 0} {P : User → Type 0} where
  pub Keeps-bind :
      (m : Task A) (f : A → Task B) → Keeps P m → ((a : A) → Keeps P (f a)) → Keeps P (m >>= f)
  Keeps-bind m f km kf = bind_triple m f km kf

-- A condition that does not read the rows.
abbrev pub IgnoresRows : (User → Type 0) → Type 0
IgnoresRows P = (u : User) (rows : List Row) → P u → P (record u { csv_rows = rows })

pub Keeps-log_csv_row :
    {P : User → Type 0} (env : Env) (status : String) (latency : ℕ) (rebuilt : Bool) (duration : ℕ)
    → IgnoresRows P
    → IgnoresPolls P
    → Keeps P (log_csv_row env status latency rebuilt duration)
unfolding log_csv_row
Keeps-log_csv_row env status latency rebuilt duration h ignores =
    Keeps-bind _ _ (Keeps-exec env (strftime env) ignores)
      λ timestamp. modify_triple _ (λ u p. h u _ p)

pub ruleset keeps_rules =
    (Keeps-pure, Keeps-raise, Keeps-lift, Keeps-exec, Keeps-gets, Keeps-try, Keeps-if, Keeps-bind)
