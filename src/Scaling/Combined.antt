-- ===== src/Scaling/Combined.antt =====
-- The file of all services, which experiments/scripts/export_cloudwatch_metrics.py puts to S3 and
-- experiments/scripts/generate_exp2_charts.py looks for: the two meet in its key.
use Prim.Native.Char.{Char}
use text.Mathlib.Text.{starts_with}
use text.Mathlib.TextPositions.{starts_with-append}
use text.Mathlib.TextLemmas.{append_assoc}
use torr_bsds.Base.{
  ℕ, ◌≤◌, String, ◌<>◌, ◌≡◌, refl, sym, ap, ◌∙◌, Bool, true, ◌&&◌, ◌||◌, some, List, [], ◌∷◌,
  str_eq, eq_iff, Bool-cases, inl, inr, arith,
}
use torr_bsds.Runtime.Json.{ok}
use torr_bsds.Runtime.Exec.{Trace, called, list_objects}
use torr_bsds.Runtime.Text.{ends_with, has_text, rstrip_char, rstrip}
use torr_bsds.Runtime.Text.Prefix.{nil_append, cons-append}
use torr_bsds.Runtime.Text.Suffix.{ends_with-append}
use torr_bsds.Load.Ramp.{Floats}
use torr_bsds.Metrics.{Args, Cloud, key_of, window_of}
use torr_bsds.Scaling.{Store, contents, s3_list_keys}
use torr_bsds.Scaling.Latest.{contains}
use torr_bsds.Scaling.Bucket.{Put, stored, puts, IsBucket}
use torr_bsds.Scaling.Figures.{Host, combined_keys}

or_right : (b : Bool) {c : Bool} → c ≡ true → (b || c) ≡ true
or_right b e = ground arith

left_true : (b c : Bool) → b ≡ true → (b || c) ≡ true
left_true b c e = ground arith

-- A text that was put into another is found in it.
has_text-append :
    (s : String) (d : Char) (part t : String)
    → has_text (String.◌∷◌ d part) (s <> (String.◌∷◌ d part <> t)) ≡ true
unfolding has_text
has_text-append String.[] d part t =
    rw (nil_append (String.◌∷◌ d part <> t), cons-append d part t)
      (left_true _ _ (
        ap (λ u. starts_with u (String.◌∷◌ d part)) (sym (cons-append d part t))
        ∙ starts_with-append (String.◌∷◌ d part) t))
has_text-append (String.◌∷◌ c s) d part t =
    rw (cons-append c s (String.◌∷◌ d part <> t)) (or_right _ (has_text-append s d part t))

module _ (store : Store) (host : Host) where
  contains-combined_keys :
      (key : String) (l : List String)
      → (has_text "all_services_" key && ends_with key ".csv") ≡ true
      → contains key l ≡ true
      → contains key (combined_keys store host l) ≡ true
  unfolding contains combined_keys
  contains-combined_keys key [] h is_in = is_in
  contains-combined_keys key (k ∷ l) h is_in = elim (Bool-cases (str_eq key k)) [
    | inl same ↦
        let at_k : (has_text "all_services_" k && ends_with k ".csv") ≡ true =
          sym (ap (λ u. has_text "all_services_" u && ends_with u ".csv") ((eq_iff key k).0 same))
          ∙ h in
        rw (at_k, same) refl
    | inr other ↦
        let rest = contains-combined_keys key l h (rw other at is_in) in
        elim (Bool-cases (has_text "all_services_" k && ends_with k ".csv")) [
          | inl taken ↦ rw (taken, other) rest
          | inr skipped ↦ rw skipped rest
        ]
  ]

module _ (F : Floats) (cloud : Cloud F) (args : Args F) (start end : ℕ) where
  -- The key of the file of all services.
  abbrev pub combined_key : String
  combined_key = key_of F cloud args "all_services" start end

  abbrev rest : String
  rest = window_of F cloud start end <> ".csv"

  regroup : combined_key ≡ (args.prefix <> "/") <> ("all_services_" <> rest)
  regroup =
      sym (append_assoc args.prefix "/" ("all_services" <> ("_" <> rest)))
      ∙ ap (λ s. (args.prefix <> "/") <> s) (sym (append_assoc "all_services" "_" rest))

  combined_key-has_text : has_text "all_services_" combined_key ≡ true
  combined_key-has_text = rw regroup (has_text-append (args.prefix <> "/") "a" "ll_services_" rest)

  combined_key-ends_with : ends_with combined_key ".csv" ≡ true
  combined_key-ends_with =
      ap (λ s. ends_with s ".csv")
        (regroup
          ∙ ap (λ s. (args.prefix <> "/") <> s)
              (sym (append_assoc "all_services_" (window_of F cloud start end) ".csv"))
          ∙ sym (
              append_assoc (args.prefix <> "/") ("all_services_" <> window_of F cloud start end)
                ".csv"))
      ∙ ends_with-append ((args.prefix <> "/") <> ("all_services_" <> window_of F cloud start end))
          ".csv"

  -- If the export runs with its default prefix and its file of all services is in the bucket, with
  -- at most a thousand uploads, then the charts list it, keep it among the files that they read,
  -- and are given its text.
  pub combined_keys-combined_key :
      (put : Put) (store : Store) (host : Host) (bucket : String) (t : Trace) (body : List ℕ)
      → IsBucket put bucket store
      → args.prefix ≡ "metrics"
      → puts put bucket t ≤ 1000
      → stored put bucket combined_key t ≡ some body
      → (keys : List String) × (u : Trace) × (s3_list_keys store bucket "metrics" t ≡ (ok keys, u))
        × (contains combined_key (combined_keys store host keys) ≡ true)
        × (store.get_object u bucket combined_key ≡ ok body)
  unfolding s3_list_keys rstrip_char rstrip stored
  combined_keys-combined_key put store host bucket t body s3 default few kept =
      let (listed, got, lists) = s3.listing t "metrics/" few in
      let under : starts_with combined_key "metrics/" ≡ true =
        ap (λ s. starts_with s "metrics/")
          (regroup ∙ ap (λ p. (p <> "/") <> ("all_services_" <> rest)) default)
        ∙ starts_with-append "metrics/" ("all_services_" <> rest) in
      (
        contents listed,
        called (list_objects bucket "metrics/") ∷ t,
        rw got refl,
        contains-combined_keys store host combined_key (contents listed)
            (rw (combined_key-has_text, combined_key-ends_with) refl)
            (lists combined_key ∙ rw (under, kept) refl),
        s3.getting (called (list_objects bucket "metrics/") ∷ t) combined_key body kept,
      )
