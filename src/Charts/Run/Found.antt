-- ===== src/Charts/Run/Found.antt =====
-- Which files the charts of experiment 3 read.
use mathlib.Core.Option
use torr_bsds.Base.{
  String, ◌≡◌, refl, sym, ap, ◌∙◌, Bool, true, false, ◌&&◌, Option, none, some, Option-cases, inl,
  inr, List, [], ◌∷◌, str_eq, eq_iff, Bool-cases, All, if◌then◌else◌,
}
use torr_bsds.Runtime.Json.{ok}
use torr_bsds.Runtime.Exec.{ok-inj}
use torr_bsds.Runtime.Text.{has_text, le_text}
use torr_bsds.Runtime.Sort.{sort, sort-All}
use torr_bsds.Charts.Run.{
  Host, ByMode, find_mode, set_mode, is_data, add_file, add_files, find_data_files,
}

-- The first of the names that is of a data file of this mode.
unfoldable pub first_of_mode : String → List String → Option String
first_of_mode mode [] = none
first_of_mode mode (name ∷ names) =
    if is_data name && has_text mode name then some name else first_of_mode mode names

or_else : {A : Type 0} → Option A → Option A → Option A
or_else (some a) o = some a
or_else none o = o

or_else-none : {A : Type 0} (o : Option A) → o ≡ or_else o none
unfolding or_else
or_else-none (some a) = refl
or_else-none none = refl

or_else-some :
    {A : Type 0} (o : Option A) (a : A) (o' : Option A)
    → or_else (or_else o (some a)) o' ≡ or_else o (some a)
unfolding or_else
or_else-some (some x) a o' = refl
or_else-some none a o' = refl

or_else-skip : {A : Type 0} (o o' : Option A) → or_else (or_else o none) o' ≡ or_else o o'
unfolding or_else
or_else-skip (some x) o' = refl
or_else-skip none o' = refl

and-false : (a b : Bool) → b ≡ true → (a && b) ≡ false → a ≡ false
and-false true b e k = cc
and-false false b e k = refl

find_mode-set_mode_self :
    {A : Type 0} (mode : String) (a : A) (d : ByMode A)
    → find_mode mode (set_mode mode a d) ≡ some a
unfolding find_mode set_mode
find_mode-set_mode_self mode a [] = rw ((eq_iff mode mode).1 refl) refl
find_mode-set_mode_self mode a ((m, b) ∷ d) = elim (Bool-cases (str_eq m mode)) [
  | inl e ↦ rw (set_mode, e, find_mode, e) refl
  | inr e ↦ rw (set_mode, e, find_mode, e) (find_mode-set_mode_self mode a d)
]

find_mode-set_mode_other :
    {A : Type 0} (mode other : String) (a : A) (d : ByMode A)
    → str_eq other mode ≡ false
    → find_mode mode (set_mode other a d) ≡ find_mode mode d
unfolding find_mode set_mode
find_mode-set_mode_other mode other a [] h = rw h refl
find_mode-set_mode_other mode other a ((m, b) ∷ d) h = elim (Bool-cases (str_eq m other)) [
  | inl e ↦
      let f : str_eq m mode ≡ false = ap (λ s. str_eq s mode) ((eq_iff m other).0 e) ∙ h in
      rw (set_mode, find_mode, e, f) refl
  | inr e ↦ elim (Bool-cases (str_eq m mode)) [
    | inl f ↦ rw (set_mode, find_mode, e, f) refl
    | inr f ↦ rw (set_mode, find_mode, e, f) (find_mode-set_mode_other mode other a d h)
  ]
]

-- No file is named after both modes.
abbrev pub IsOfOneMode : String → Type 0
IsOfOneMode name = (has_text "no-predetection" name && has_text "with-predetection" name) ≡ false

module _ (host : Host) (data_dir : String) where
  -- What a file adds for its mode.
  abbrev path_for : String → String → Option String
  path_for mode name =
      if is_data name && has_text mode name then some (host.join data_dir name) else none

  -- Setting the path of another mode, or not, leaves this mode's.
  find_mode-if_other :
      (mode other path : String) (files : ByMode String) (b : Bool)
      → str_eq other mode ≡ false
      → find_mode mode (if b then set_mode other path files else files) ≡ find_mode mode files
  find_mode-if_other mode other path files true h = find_mode-set_mode_other mode other path files h
  find_mode-if_other mode other path files false h = refl

  add_file-no :
      (name : String) (files : ByMode String)
      → find_mode "no-predetection" (add_file host data_dir name files)
        ≡ or_else (find_mode "no-predetection" files) (path_for "no-predetection" name)
  unfolding add_file or_else
  add_file-no name files =
      let path = host.join data_dir name in
      let before = find_mode "no-predetection" files in
      let self = find_mode-set_mode_self "no-predetection" path files in
      let other =
        λ (b : Bool). find_mode-if_other "no-predetection" "with-predetection" path files b refl in
      elim (Bool-cases (is_data name)) [
        | inr e ↦ rw e (or_else-none before)
        | inl e ↦ elim (Bool-cases (has_text "no-predetection" name)) [
          | inl f ↦ elim (Option-cases before) [
            | inl g ↦ rw (e, f, g) self
            | inr (a, g) ↦ rw (e, f, g) (other _ ∙ g)
          ]
          | inr f ↦ rw (e, f) (other _ ∙ or_else-none before)
        ]
      ]

  add_file-with :
      (name : String) (files : ByMode String)
      → IsOfOneMode name
      → find_mode "with-predetection" (add_file host data_dir name files)
        ≡ or_else (find_mode "with-predetection" files) (path_for "with-predetection" name)
  unfolding add_file or_else
  add_file-with name files h =
      let path = host.join data_dir name in
      let before = find_mode "with-predetection" files in
      let self = find_mode-set_mode_self "with-predetection" path files in
      let other =
        λ (b : Bool). find_mode-if_other "with-predetection" "no-predetection" path files b refl in
      elim (Bool-cases (is_data name)) [
        | inr e ↦ rw e (or_else-none before)
        | inl e ↦ elim (Bool-cases (has_text "with-predetection" name)) [
          | inl f ↦
              let k : has_text "no-predetection" name ≡ false = and-false _ _ f h in
              elim (Option-cases before) [
                | inl g ↦ rw (e, k, f, g) self
                | inr (a, g) ↦ rw (e, k, f, g) g
              ]
          | inr f ↦ rw (e, f) (other _ ∙ or_else-none before)
        ]
      ]

  -- How one file changes what a mode has settles how all do.
  module _ (mode : String) (Holds : String → Type 0)
      (one : (name : String) (files : ByMode String)
        → Holds name
        → find_mode mode (add_file host data_dir name files)
          ≡ or_else (find_mode mode files) (path_for mode name)) where
    add_files-first :
        (names : List String) (files : ByMode String)
        → All Holds names
        → find_mode mode (add_files host data_dir names files)
          ≡ or_else
              (find_mode mode files)
              (Option.map (host.join data_dir) (first_of_mode mode names))
    unfolding add_files first_of_mode or_else
    add_files-first [] files hs = or_else-none (find_mode mode files)
    add_files-first (name ∷ names) files (h, hs) =
        let rest = add_files-first names (add_file host data_dir name files) hs in
        let found =
          rest
          ∙ ap (λ o. or_else o (Option.map (host.join data_dir) (first_of_mode mode names)))
              (one name files h) in
        elim (Bool-cases (is_data name && has_text mode name)) [
          | inl e ↦ rw e (found ∙ rw e (or_else-some (find_mode mode files) _ _))
          | inr e ↦ rw e (found ∙ rw e (or_else-skip (find_mode mode files) _))
        ]

  -- If no file is named after both modes: the file that is read for a mode is the first in the
  -- order of the names, of the CSVs that are no aggregates of Locust's and have the mode in their
  -- name; and none if there is no such file.
  pub find_data_files-first :
      (names : List String) (files : ByMode String)
      → host.listdir data_dir ≡ ok names
      → All IsOfOneMode names
      → find_data_files host data_dir ≡ ok files
      → (find_mode "no-predetection" files
          ≡ Option.map (host.join data_dir) (first_of_mode "no-predetection" (sort le_text names)))
        × (find_mode "with-predetection" files
            ≡ Option.map
                (host.join data_dir)
                (first_of_mode "with-predetection" (sort le_text names)))
  unfolding find_data_files find_mode or_else
  find_data_files-first names files listed ones e =
      let same : add_files host data_dir (sort le_text names) [] ≡ files =
        ok-inj (rw (find_data_files, listed) at e) in
      let all = sort-All le_text IsOfOneMode names ones in
      (
        rw (sym same) (
            add_files-first "no-predetection" IsOfOneMode (λ name fs h. add_file-no name fs)
              (sort le_text names) [] all),
        rw (sym same) (
            add_files-first "with-predetection" IsOfOneMode add_file-with (sort le_text names) []
              all),
      )
