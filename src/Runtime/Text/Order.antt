-- ===== src/Runtime/Text/Order.antt =====
-- `le_text` is an order.

use torr_bsds.Base.{String, ◌≡◌, refl, true, arith}
use torr_bsds.Runtime.Text.{le_text}
use torr_bsds.Runtime.Sort.{IsTotal}

pub le_text-IsTotal : IsTotal le_text
unfolding le_text
le_text-IsTotal String.[] t h = cc
le_text-IsTotal (String.◌∷◌ c s) String.[] h = refl
le_text-IsTotal (String.◌∷◌ c s) (String.◌∷◌ d t) h = let rest = le_text-IsTotal s t in ground arith

pub le_text_trans : (s t u : String) → le_text s t ≡ true → le_text t u ≡ true → le_text s u ≡ true
unfolding le_text
le_text_trans String.[] t u h k = refl
le_text_trans (String.◌∷◌ c s) String.[] u h k = absurd (cc)
le_text_trans (String.◌∷◌ c s) (String.◌∷◌ d t) String.[] h k = k
le_text_trans (String.◌∷◌ c s) (String.◌∷◌ d t) (String.◌∷◌ e u) h k =
    let rest = le_text_trans s t u in ground arith
