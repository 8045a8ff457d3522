-- ===== src/Scaling/Latest.antt =====
-- The last name in order, of those that end so.
use text.Mathlib.TextPositions.{eq_refl}
use torr_bsds.Base.{
  String, ◌≡◌, refl, sym, ap, ◌∙◌, Bool, true, false, inl, inr, ◌||◌, ◌&&◌, some, List, [], ◌∷◌,
  str_eq, eq_iff, Bool-cases, arith,
}
use torr_bsds.Runtime.Text.{ends_with, le_text}
use torr_bsds.Runtime.Text.Order.{le_text-IsTotal, le_text_trans}
use torr_bsds.Runtime.Sort.{insert, sort, IsSorted, sort-IsSorted}
use torr_bsds.Scaling.{having_suffix, last, latest}

unfoldable pub contains : String → List String → Bool
contains key [] = false
contains key (x ∷ xs) = str_eq key x || contains key xs

contains-insert :
    (key x : String) (l : List String)
    → contains key (insert le_text x l) ≡ (str_eq key x || contains key l)
unfolding contains insert
contains-insert key x [] = refl
contains-insert key x (y ∷ ys) = let rest = contains-insert key x ys in ground arith

contains-sort : (key : String) (l : List String) → contains key (sort le_text l) ≡ contains key l
unfolding contains sort
contains-sort key [] = refl
contains-sort key (x ∷ xs) =
    contains-insert key x (sort le_text xs) ∙ ap (λ b. str_eq key x || b) (contains-sort key xs)

pub contains-having_suffix :
    (key suffix : String) (l : List String)
    → contains key (having_suffix suffix l) ≡ (contains key l && ends_with key suffix)
unfolding contains having_suffix
contains-having_suffix key suffix [] = refl
contains-having_suffix key suffix (x ∷ xs) =
    let rest = contains-having_suffix key suffix xs in
    elim (Bool-cases (str_eq key x)) [
      | inr other ↦ rw other (ground arith)
      | inl same ↦
          let at_x : ends_with x suffix ≡ ends_with key suffix =
            sym (ap (λ k. ends_with k suffix) ((eq_iff key x).0 same)) in
          ground arith
    ]

le_text_self : (s : String) → le_text s s ≡ true
le_text_self s = elim (Bool-cases (le_text s s)) [ inl e ↦ e | inr e ↦ le_text-IsTotal s s e ]

or_right : (b : Bool) {c : Bool} → c ≡ true → (b || c) ≡ true
or_right b e = ground arith

only : (x y : String) → (str_eq x y || false) ≡ true → x ≡ y
only x y h = (eq_iff x y).0 (ground arith)

-- The last of a sorted list is in it, and not less than any other of it.
last_greatest :
    (x : String) (l : List String)
    → IsSorted le_text l
    → contains x l ≡ true
    → (m : String) × (last l ≡ some m) × (contains m l ≡ true) × (le_text x m ≡ true)
unfolding contains last
last_greatest x [] s h = absurd cc
last_greatest x (y ∷ []) s h = (y, refl, rw (eq_refl y) refl, rw (only x y h) (le_text_self y))
last_greatest x (y ∷ z ∷ l) (le, s) h = elim (Bool-cases (str_eq x y)) [
  | inl same ↦
      let (m, e, is_in, le_m) = last_greatest z (z ∷ l) s (rw (eq_refl z) refl) in
      (m, e, or_right (str_eq m y) is_in, rw ((eq_iff x y).0 same) (le_text_trans y z m le le_m))
  | inr other ↦
      let (m, e, is_in, le_m) = last_greatest x (z ∷ l) s (rw other at h) in
      (m, e, or_right (str_eq m y) is_in, le_m)
]

pub latest_greatest :
    (x : String) (l : List String)
    → contains x l ≡ true
    → (m : String) × (latest l ≡ some m) × (contains m l ≡ true) × (le_text x m ≡ true)
latest_greatest x l h =
    let (m, e, is_in, le) =
      last_greatest x (sort le_text l) (sort-IsSorted le_text le_text-IsTotal l)
        (contains-sort x l ∙ h) in
    (m, e, sym (contains-sort m l) ∙ is_in, le)

last-contains : (l : List String) (m : String) → last l ≡ some m → contains m l ≡ true
unfolding contains last
last-contains [] m e = absurd cc
last-contains (x ∷ []) m e = let same : x ≡ m = cc in rw same (rw (eq_refl m) refl)
last-contains (x ∷ y ∷ l) m e = or_right (str_eq m x) (last-contains (y ∷ l) m e)

-- The latest of the names that end so is one of the names, and ends so.
pub latest-having_suffix :
    (suffix : String) (l : List String) (m : String)
    → latest (having_suffix suffix l) ≡ some m
    → (contains m l ≡ true) × (ends_with m suffix ≡ true)
latest-having_suffix suffix l m e =
    let is_in =
      sym (contains-having_suffix m suffix l)
      ∙ sym (contains-sort m (having_suffix suffix l))
      ∙ last-contains (sort le_text (having_suffix suffix l)) m e in
    (ground arith, ground arith)
