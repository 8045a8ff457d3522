-- ===== src/Scaling/Uploaded.antt =====
-- What experiments/scripts/generate_exp2_charts.py reads after experiments/locust/
-- throughput_scaling.py has stored a run: the two meet in the keys and in the summary's text.
pub mod Reload
use text.Mathlib.TextPositions.{eq_refl, starts_with-append}
use text.Mathlib.TextLemmas.{append_assoc}
use torr_bsds.Base.{
  ℕ, ◌+◌, ◌≤◌, String, ◌<>◌, ◌≡◌, ◌≢◌, refl, sym, ap, ◌∙◌, Bool, true, false, ◌⊎◌, inl, inr, Option,
  none, some, List, [], ◌∷◌, map, str_eq, eq_iff, Bool-cases, arith,
}
use torr_bsds.Runtime.Json.{Json, null, obj, end, get_or, truthy, ok}
use torr_bsds.Runtime.Exec.{Trace, called, put_object, read_time}
use torr_bsds.Runtime.Text.{ends_with, rstrip_char, le_text}
use torr_bsds.Runtime.Text.Prefix.{has_slash}
use torr_bsds.Runtime.Text.Suffix.{last_code, ends_with-append, ends_with-other}
use torr_bsds.Load.Ramp.{Floats, Settings, StepRecord, Ramp}
use torr_bsds.Upload.{Entry, stat_row, Storage, Summary, summary_of, upload_scaling}
use torr_bsds.Upload.Stored.{put_of, RaisesAws, upload_scaling-stores}
use torr_bsds.Scaling.{Store, ceiling_of, prefix_of}
use torr_bsds.Scaling.Bucket.{is_some, stored, puts, IsBucket}
use torr_bsds.Scaling.Newest.{folder, IsSummary, Newest}

module _ (F : Floats) (storage : Storage F) (store : Store) where
  abbrev json_or_null : (StepRecord F → Json) → Option (StepRecord F) → Json
  json_or_null json_of none = null
  json_or_null json_of (some r) = json_of r

  -- What `json.loads` makes of a summary that `json.dumps` wrote: its ceiling is `null`, or a dict
  -- with the keys of a step, which is not empty.
  pub record ReadsBack : Type 0 where
    pub json_of : StepRecord F → Json
    pub is_truthy : (r : StepRecord F) → truthy (json_of r) ≡ true
    pub reads_ceiling :
        (s : Summary F)
        → (j : Json) × (store.loads (storage.summary_json s) ≡ ok j)
          × (get_or j "ceiling" null ≡ ok (json_or_null json_of s.ceiling))

  -- The ceiling as the charts have it.
  abbrev pub shown : ReadsBack → Option (StepRecord F) → Json
  shown back none = obj end
  shown back (some r) = back.json_of r

  pub ceiling_of-shown :
      (back : ReadsBack) (j : Json) (o : Option (StepRecord F))
      → get_or j "ceiling" null ≡ ok (json_or_null back.json_of o)
      → ceiling_of j ≡ ok (shown back o)
  unfolding ceiling_of truthy
  ceiling_of-shown back j none got = rw (ceiling_of, got) refl
  ceiling_of-shown back j (some r) got = rw (ceiling_of, got, back.is_truthy r) refl

-- The digits of a number: they differ for different numbers, and there is no slash among them.
pub record IsDecimal (show : ℕ → String) : Type 0 where
  pub no_slash : (n : ℕ) → has_slash (show n) ≡ false
  pub some_digit : (n : ℕ) → show n ≢ ""
  pub injective : (m n : ℕ) → show m ≡ show n → m ≡ n

module _ {F : Floats} (storage : Storage F) (bucket : String) where
  pub stored-put_of :
      {A : Type 0} (k key : String) (csv : List A → List ℕ) (rows : List A) (t : Trace)
      → str_eq k key ≡ false
      → stored storage.put_object bucket k (put_of bucket key csv rows t)
        ≡ stored storage.put_object bucket k t
  unfolding stored
  stored-put_of k key csv [] t other = refl
  stored-put_of k key csv (row ∷ rows) t other = rw (other, eq_refl bucket) refl

  pub puts-put_of :
      {A : Type 0} (key : String) (csv : List A → List ℕ) (rows : List A) (t : Trace)
      → puts storage.put_object bucket (put_of bucket key csv rows t)
        ≤ puts storage.put_object bucket t + 1
  unfolding puts
  puts-put_of key csv [] t = omega arith
  puts-put_of key csv (row ∷ rows) t = omega arith

-- Two keys that end differently.
pub other_key :
    (k key suffix : String)
    → ends_with k suffix ≡ true
    → ends_with key suffix ≡ false
    → str_eq k key ≡ false
other_key k key suffix ends not = elim (Bool-cases (str_eq k key)) [
  | inr e ↦ e
  | inl e ↦
      let same : ends_with k suffix ≡ ends_with key suffix =
        ap (λ s. ends_with s suffix) ((eq_iff k key).0 e) in
      absurd cc
]

regroup : (p now suffix : String) → p <> "/" <> now <> suffix ≡ (p <> "/" <> now) <> suffix
regroup p now suffix =
    ap (λ s. p <> s) (sym (append_assoc "/" now suffix)) ∙ sym (append_assoc p ("/" <> now) suffix)

pub is_summary :
    (p now : String) → ends_with (p <> "/" <> now <> "_summary.json") "_summary.json" ≡ true
is_summary p now =
    rw (regroup p now "_summary.json") (ends_with-append (p <> "/" <> now) "_summary.json")

pub steps_no_summary :
    (p now : String) → ends_with (p <> "/" <> now <> "_steps.csv") "_summary.json" ≡ false
unfolding last_code
steps_no_summary p now =
    rw (regroup p now "_steps.csv")
      (ends_with-other (p <> "/" <> now) "steps.csv" "summary.json" "_" "_" (λ e. ground arith))

pub stats_no_summary :
    (p now : String) → ends_with (p <> "/" <> now <> "_locust_stats.csv") "_summary.json" ≡ false
unfolding last_code
stats_no_summary p now = rw (regroup p now "_locust_stats.csv") (
    ends_with-other (p <> "/" <> now) "locust_stats.csv" "summary.json" "_" "_" (λ e. ground arith))
