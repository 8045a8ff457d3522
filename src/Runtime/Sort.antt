-- ===== src/Runtime/Sort.antt =====
-- `sorted` and `list.sort`: they are stable, which makes their result unique, so it may be given by
-- insertion.
use mathlib.Core.List.{Perm}
use mathlib.Core.List.Perm
use torr_bsds.Base.{
  Bool, true, false, ◌≡◌, refl, inl, inr, List, [], ◌∷◌, Bool-cases, if◌then◌else◌, All, map, ap,
  ◌∙◌,
}

module _ {A : Type 0} (le : A → A → Bool) where
  unfoldable pub insert : A → List A → List A
  insert x [] = x ∷ []
  insert x (y ∷ ys) = let rest = insert x ys in if le x y then x ∷ y ∷ ys else y ∷ rest

  unfoldable pub sort : List A → List A
  sort [] = []
  sort (x ∷ xs) = insert x (sort xs)

  -- Each element is in order with the one after it.
  abbrev pub IsSorted : List A → Type 0
  IsSorted [] = Unit
  IsSorted (x ∷ []) = Unit
  IsSorted (x ∷ y ∷ l) = (le x y ≡ true) × IsSorted (y ∷ l)

  abbrev pub IsTotal : Type 0
  IsTotal = (x y : A) → le x y ≡ false → le y x ≡ true

  insert-perm : (x : A) (l : List A) → Perm (insert x l) (x ∷ l)
  unfolding insert
  insert-perm x [] = Perm.rfl
  insert-perm x (y ∷ ys) = elim (Bool-cases (le x y)) [
    | inl e ↦ rw e Perm.rfl
    | inr e ↦ rw e (Perm.trans (Perm.cons y (insert-perm x ys)) (Perm.swap x y ys))
  ]

  pub sort-perm : (l : List A) → Perm (sort l) l
  unfolding sort
  sort-perm [] = Perm.rfl
  sort-perm (x ∷ xs) = Perm.trans (insert-perm x (sort xs)) (Perm.cons x (sort-perm xs))

  insert-IsSorted : IsTotal → (x : A) (l : List A) → IsSorted l → IsSorted (insert x l)
  unfolding insert
  insert-IsSorted total x [] s = tt
  insert-IsSorted total x (y ∷ []) s = elim (Bool-cases (le x y)) [
    | inl e ↦ rw e (e, tt)
    | inr e ↦ rw e (total x y e, tt)
  ]
  insert-IsSorted total x (y ∷ z ∷ l) (h, s) = elim (Bool-cases (le x y)) [
    | inl e ↦ rw e (e, (h, s))
    | inr e ↦ rw e (elim (Bool-cases (le x z)) [
      | inl f ↦ rw f (total x y e, (f, s))
      | inr f ↦ rw f (h, rw f at (insert-IsSorted total x (z ∷ l) s))
    ])
  ]

  pub sort-IsSorted : IsTotal → (l : List A) → IsSorted (sort l)
  unfolding sort
  sort-IsSorted total [] = tt
  sort-IsSorted total (x ∷ xs) = insert-IsSorted total x (sort xs) (sort-IsSorted total xs)

  module _ (P : A → Type 0) where
    insert-All : (x : A) (l : List A) → P x → All P l → All P (insert x l)
    unfolding insert
    insert-All x [] p ps = (p, tt)
    insert-All x (y ∷ ys) p (q, qs) = elim (Bool-cases (le x y)) [
      | inl e ↦ rw e (p, (q, qs))
      | inr e ↦ rw e (q, insert-All x ys p qs)
    ]

    pub sort-All : (l : List A) → All P l → All P (sort l)
    unfolding sort
    sort-All [] ps = tt
    sort-All (x ∷ xs) (p, ps) = insert-All x (sort xs) p (sort-All xs ps)

-- Sorting commutes with a map that keeps the order.
module _ {A B : Type 0} (le : A → A → Bool) (le' : B → B → Bool) (f : A → B) where
  abbrev pub Keeps : Type 0
  Keeps = (x y : A) → le' (f x) (f y) ≡ le x y

  insert-map : Keeps → (x : A) (l : List A) → insert le' (f x) (map f l) ≡ map f (insert le x l)
  unfolding insert
  insert-map keeps x [] = refl
  insert-map keeps x (y ∷ ys) = elim (Bool-cases (le x y)) [
    | inl e ↦ rw (keeps x y, e) refl
    | inr e ↦ rw (keeps x y, e) (ap (λ l. f y ∷ l) (insert-map keeps x ys))
  ]

  pub sort-map : Keeps → (l : List A) → sort le' (map f l) ≡ map f (sort le l)
  unfolding sort
  sort-map keeps [] = refl
  sort-map keeps (x ∷ xs) =
      ap (insert le' (f x)) (sort-map keeps xs) ∙ insert-map keeps x (sort le xs)
