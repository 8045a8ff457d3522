-- ===== src/Charts/Drawn/Modes.antt =====
-- The modes of the charts of experiment 3 are the two that have a colour and a label.
use torr_bsds.Base.{
  ℕ, String, ◌≡◌, refl, ap, subst, List, [], ◌∷◌, All, Bool-cases, inl, inr, str_eq,
}
use torr_bsds.Runtime.Json.{ok}
use torr_bsds.Runtime.Exec.{ok-inj}
use torr_bsds.Runtime.Fallible.{>>=-returned}
use torr_bsds.Runtime.Text.{le_text}
use torr_bsds.Runtime.Sort.{sort}
use torr_bsds.Charts.Run.{
  Host, Args, ByMode, find_mode, set_mode, is_data, is_new, add_file, add_files, find_data_files,
  load_csv, load_all, Request, load_run, kill_times, exit_if_empty,
}
use torr_bsds.Charts.Drawn.{color_of, label_of}

-- A mode with a colour and a label.
abbrev pub IsKnown : String → Type 0
IsKnown mode =
    ((color : String) × (color_of mode ≡ ok color))
    × ((label : String) × (label_of mode ≡ ok label))

no_predetection : IsKnown "no-predetection"
unfolding color_of label_of find_mode
no_predetection = ((_, refl), (_, refl))

with_predetection : IsKnown "with-predetection"
unfolding color_of label_of find_mode
with_predetection = ((_, refl), (_, refl))

set_mode-All :
    {A : Type 0} (P : String → Type 0) (mode : String) (a : A) (d : ByMode A)
    → P mode
    → All (λ e. P e.0) d
    → All (λ e. P e.0) (set_mode mode a d)
unfolding set_mode
set_mode-All P mode a [] p ps = (p, tt)
set_mode-All P mode a ((m, b) ∷ d) p (q, qs) = elim (Bool-cases (str_eq m mode)) [
  | inl e ↦ rw e (q, qs)
  | inr e ↦ rw e (q, set_mode-All P mode a d p qs)
]

module _ (host : Host) where
  add_file-IsKnown :
      (data_dir fname : String) (files : ByMode String)
      → All (λ e. IsKnown e.0) files
      → All (λ e. IsKnown e.0) (add_file host data_dir fname files)
  unfolding add_file
  add_file-IsKnown data_dir fname files known = elim (Bool-cases (is_data fname)) [
    | inr skipped ↦ rw skipped known
    | inl taken ↦ elim (Bool-cases (is_new "no-predetection" fname files)) [
      | inl one ↦
          rw (taken, one)
            (set_mode-All IsKnown "no-predetection" (host.join data_dir fname) files no_predetection
              known)
      | inr other ↦ elim (Bool-cases (is_new "with-predetection" fname files)) [
        | inl two ↦
            rw (taken, other, two)
              (set_mode-All IsKnown "with-predetection" (host.join data_dir fname) files
                with_predetection known)
        | inr neither ↦ rw (taken, other, neither) known
      ]
    ]
  ]

  add_files-IsKnown :
      (data_dir : String) (names : List String) (files : ByMode String)
      → All (λ e. IsKnown e.0) files
      → All (λ e. IsKnown e.0) (add_files host data_dir names files)
  unfolding add_files
  add_files-IsKnown data_dir [] files known = known
  add_files-IsKnown data_dir (fname ∷ names) files known =
      add_files-IsKnown data_dir names (add_file host data_dir fname files)
        (add_file-IsKnown data_dir fname files known)

  load_all-IsKnown :
      (files : ByMode String) (data_by_mode : ByMode (List (Request host)))
      → load_all host files ≡ ok data_by_mode
      → All (λ e. IsKnown e.0) files
      → All (λ e. IsKnown e.0) data_by_mode
  unfolding load_all
  load_all-IsKnown [] data_by_mode e known = subst (All (λ m. IsKnown m.0)) (ok-inj e) tt
  load_all-IsKnown ((mode, path) ∷ files) data_by_mode e (k, known) =
      let (rows, _, e1) = >>=-returned (load_csv host path) _ e in
      let (rest, e2, e3) = >>=-returned (load_all host files) _ e1 in
      subst (All (λ m. IsKnown m.0)) (ok-inj e3) (k, load_all-IsKnown files rest e2 known)

  -- The modes of what `main` loads.
  pub load_run-IsKnown :
      (args : Args) (times : ByMode ℕ) (data_by_mode : ByMode (List (Request host)))
      → load_run host args ≡ ok (times, data_by_mode)
      → All (λ e. IsKnown e.0) data_by_mode
  unfolding load_run find_data_files
  load_run-IsKnown args times data_by_mode e =
      let (_, _, e1) = >>=-returned (host.makedirs args.out_dir) _ e in
      let (times', _, e2) = >>=-returned (kill_times host args) _ e1 in
      let (_, _, e3) = >>=-returned (exit_if_empty host times') _ e2 in
      let (files, found, e4) = >>=-returned (find_data_files host args.data_dir) _ e3 in
      let (_, _, e5) = >>=-returned (exit_if_empty host files) _ e4 in
      let (all_rows, loaded, e6) = >>=-returned (load_all host files) _ e5 in
      let (names, _, same_files) = >>=-returned (host.listdir args.data_dir) _ found in
      subst (All (λ m. IsKnown m.0)) (ap (λ p. p.1) (ok-inj e6)) (
        load_all-IsKnown files all_rows loaded (
          subst (All (λ m. IsKnown m.0)) (ok-inj same_files)
            (add_files-IsKnown args.data_dir (sort le_text names) [] tt)))
