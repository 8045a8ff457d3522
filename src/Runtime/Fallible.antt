-- ===== src/Runtime/Fallible.antt =====
-- Calls that return or raise and do nothing else.
use torr_bsds.Base.{List, [], ◌∷◌, ◌≡◌, refl}
use torr_bsds.Runtime.Json.{Result, ok, err}

infixl 5 ◌>>=◌ ◌>>◌
abbrev pub ◌>>=◌ : {A B : Type 0} → Result A → (A → Result B) → Result B
ok a >>= f = f a
err e >>= f = err e

abbrev pub ◌>>◌ : {A B : Type 0} → Result A → Result B → Result B
m >> k = m >>= λ _. k

-- A loop that collects what each element gives.
unfoldable pub traverse : {A B : Type 0} → (A → Result B) → List A → Result (List B)
traverse f [] = ok []
traverse f (x ∷ xs) = do y ← f x; ys ← traverse f xs; ok (y ∷ ys)

-- What a block that returned has passed through, for its first step.
pub >>=-returned :
    {A B : Type 0} (first : Result A) (rest : A → Result B) {b : B}
    → (first >>= rest) ≡ ok b
    → (a : A) × (first ≡ ok a) × (rest a ≡ ok b)
>>=-returned (err raised) rest h = cc
>>=-returned (ok a) rest h = (a, refl, h)
