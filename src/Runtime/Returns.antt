-- ===== src/Runtime/Returns.antt =====
-- Taking apart a block that returned, one rule for each kind of first step. The rest of a proof
-- is a function of what that step yielded.
use torr_bsds.Base.{◌∷◌, ◌≡◌, refl}
use torr_bsds.Runtime.Json.{Result, ok, err}
use torr_bsds.Runtime.Exec.{Exec, Trace, Request, sent, continue, lift, ◌>>=◌}
use torr_bsds.Runtime.Env.{Env, Response, send}

module _ {ℓ} {A B : Type 0} {C : Type ℓ} where
  pub bind_ok :
      (m : Exec A) (f : A → Exec B) (t : Trace) {b : B} {t' : Trace}
      → (m >>= f) t ≡ (ok b, t')
      → ((a : A) (u : Trace) → m t ≡ (ok a, u) → f a u ≡ (ok b, t') → C)
      → C
  bind_ok m f t {b} {t'} = split (m t)
    where
      split :
          (r : Result A × Trace)
          → continue r f ≡ (ok b, t')
          → ((a : A) (u : Trace) → r ≡ (ok a, u) → f a u ≡ (ok b, t') → C)
          → C
      split (ok a, u) e k = k a u refl e
      split (err x, u) e k = cc

  pub lift_ok :
      (r : Result A) (f : A → Exec B) (t : Trace) {b : B} {t' : Trace}
      → (lift r >>= f) t ≡ (ok b, t')
      → ((a : A) → r ≡ ok a → f a t ≡ (ok b, t') → C)
      → C
  lift_ok (ok a) f t e k = k a refl e
  lift_ok (err x) f t e k = cc

module _ {ℓ} {B : Type 0} {C : Type ℓ} (env : Env) where
  pub send_ok :
      (r : Request) (f : Response → Exec B) (t : Trace) {b : B} {t' : Trace}
      → (send env r >>= f) t ≡ (ok b, t')
      → ((resp : Response) → env.http t r ≡ ok resp → f resp (sent r ∷ t) ≡ (ok b, t') → C)
      → C
  unfolding send
  send_ok r f t = lift_ok (env.http t r) f (sent r ∷ t)
