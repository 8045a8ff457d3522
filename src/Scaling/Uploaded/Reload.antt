-- ===== src/Scaling/Uploaded/Reload.antt =====
-- The summaries after an upload.
use text.Mathlib.Text.{starts_with}
use text.Mathlib.TextPositions.{eq_refl, starts_with-append}
use text.Mathlib.TextLemmas.{append_assoc}
use torr_bsds.Base.{
  ℕ, ◌+◌, ◌≤◌, String, ◌<>◌, ◌≡◌, ◌≢◌, refl, sym, ap, ◌∙◌, true, false, Option, none, some, ◌==◌,
  if◌then◌else◌, inl, inr, List, [], ◌∷◌, map, All, str_eq, eq_iff, Bool-cases, arith,
}
use torr_bsds.Runtime.Json.{Json, ok}
use torr_bsds.Runtime.Exec.{Trace, called, put_object, read_time}
use torr_bsds.Runtime.Text.{ends_with, rstrip_char, le_text}
use torr_bsds.Runtime.Text.Folder.{rstrip_char_none, other_folder}
use torr_bsds.Load.Ramp.{Floats, Settings, Ramp}
use torr_bsds.Upload.{Entry, stat_row, Storage, Summary, summary_of, upload_scaling}
use torr_bsds.Upload.Stored.{put_of, RaisesAws, upload_scaling-stores}
use torr_bsds.Scaling.{Store, relay_counts, prefix_of, load_summaries_from_s3}
use torr_bsds.Scaling.Bucket.{is_some, stored, puts, IsBucket}
use torr_bsds.Scaling.Newest.{folder, IsSummary, Newest, Loads, entries, load_from_s3-Loads}
use torr_bsds.Scaling.Uploaded.{
  ReadsBack, IsDecimal, shown, ceiling_of-shown, stored-put_of, puts-put_of, other_key, is_summary,
  steps_no_summary, stats_no_summary,
}

-- A key under a prefix is not one that is not.
other_place :
    (k key p : String) → starts_with k p ≡ true → starts_with key p ≡ false → str_eq k key ≡ false
other_place k key p h no_prefix = elim (Bool-cases (str_eq k key)) [
  | inr e ↦ e
  | inl e ↦
      let same : starts_with k p ≡ starts_with key p =
        ap (λ s. starts_with s p) ((eq_iff k key).0 e) in
      absurd cc
]

module _ {F : Floats} (storage : Storage F) (store : Store) (bucket : String) (c : Settings F)
    (ramp : Ramp F) (stats : List (Entry F)) (t : Trace) where
  -- The default of `S3_PREFIX`.
  abbrev pub prefix : String
  prefix = rstrip_char "/" (prefix_of store c.relay_count)

  abbrev pub now : String
  now = storage.timestamp t

  abbrev pub summary_key : String
  summary_key = prefix <> "/" <> now <> "_summary.json"

  abbrev pub summary : Summary F
  summary = summary_of F storage c now ramp

  -- When the summary is uploaded, and when the upload has ended.
  abbrev pub with_steps : Trace
  with_steps =
      put_of bucket (prefix <> "/" <> now <> "_steps.csv") storage.steps_csv ramp.step_records
        (read_time ∷ t)

  abbrev pub uploaded : Trace
  uploaded = (upload_scaling F storage c bucket prefix ramp stats t).1

  abbrev put_summary : Trace
  put_summary = called (put_object bucket summary_key (storage.summary_json summary)) ∷ with_steps

  abbrev with_all : Trace
  with_all =
      put_of bucket (prefix <> "/" <> now <> "_locust_stats.csv") storage.relay_csv
        (map (stat_row F now c.relay_count) stats) put_summary

  -- The bucket has a text under a summary's name as after the upload of the summary.
  stored-with_all :
      (k : String)
      → ends_with k "_summary.json" ≡ true
      → stored storage.put_object bucket k with_all ≡ stored storage.put_object bucket k put_summary
  stored-with_all k named =
      stored-put_of storage bucket k (prefix <> "/" <> now <> "_locust_stats.csv") storage.relay_csv
        (map (stat_row F now c.relay_count) stats) put_summary
        (other_key k _ "_summary.json" named (stats_no_summary prefix now))

  stored-with_steps :
      (k : String)
      → ends_with k "_summary.json" ≡ true
      → stored storage.put_object bucket k with_steps ≡ stored storage.put_object bucket k t
  unfolding stored
  stored-with_steps k named =
      stored-put_of storage bucket k (prefix <> "/" <> now <> "_steps.csv") storage.steps_csv
        ramp.step_records (read_time ∷ t)
        (other_key k _ "_summary.json" named (steps_no_summary prefix now))

  -- Another summary is as it was.
  stored-other :
      (k : String)
      → ends_with k "_summary.json" ≡ true
      → str_eq k summary_key ≡ false
      → stored storage.put_object bucket k with_all ≡ stored storage.put_object bucket k t
  unfolding stored
  stored-other k named other =
      stored-with_all k named ∙ rw (other, eq_refl bucket) (stored-with_steps k named)

  under : starts_with summary_key (folder storage.put_object store bucket c.relay_count) ≡ true
  under =
      ap (λ s. starts_with s (prefix <> "/"))
        (sym (append_assoc prefix "/" (now <> "_summary.json")))
      ∙ starts_with-append (prefix <> "/") (now <> "_summary.json")

  -- What another relay count has is as it was.
  stored-elsewhere :
      {d : ℕ} (k : String)
      → starts_with summary_key (folder storage.put_object store bucket d) ≡ false
      → IsSummary storage.put_object store bucket d k
      → stored storage.put_object bucket k with_all ≡ stored storage.put_object bucket k t
  stored-elsewhere {d} k elsewhere s =
      stored-other k s.named
        (other_place k summary_key (folder storage.put_object store bucket d) s.under elsewhere)

  uploaded-Loads-other :
      (d : ℕ) (o : Option Json)
      → starts_with summary_key (folder storage.put_object store bucket d) ≡ false
      → Loads storage.put_object store bucket t d o
      → Loads storage.put_object store bucket with_all d o
  uploaded-Loads-other d none elsewhere absent =
      λ k is_kept s. absent k (rw (sym (stored-elsewhere k elsewhere s)) is_kept) s
  uploaded-Loads-other d (some ceiling) elsewhere new = record {
    key = new.key;
    body = new.body;
    is_kept = stored-elsewhere new.key elsewhere new.is_summary ∙ new.is_kept;
    is_summary = new.is_summary;
    newest = λ k is_kept s. new.newest k (rw (sym (stored-elsewhere k elsewhere s)) is_kept) s;
    reads = new.reads;
  }

  puts-with_all : puts storage.put_object bucket with_all ≤ puts storage.put_object bucket t + 3
  unfolding puts
  puts-with_all = omega (
    arith,
    puts-put_of storage bucket (prefix <> "/" <> now <> "_locust_stats.csv") storage.relay_csv
        (map (stat_row F now c.relay_count) stats) put_summary,
    puts-put_of storage bucket (prefix <> "/" <> now <> "_steps.csv") storage.steps_csv
        ramp.step_records (read_time ∷ t),
  )

  module _ (back : ReadsBack F storage store) where
    uploaded-Newest :
        storage.put_object with_steps bucket summary_key (storage.summary_json summary) ≡ ok tt
        → ((k : String)
            → is_some (stored storage.put_object bucket k t) ≡ true
            → IsSummary storage.put_object store bucket c.relay_count k
            → le_text summary_key k ≡ false)
        → Newest storage.put_object store bucket with_all c.relay_count
            (shown F storage store back ramp.ceiling_record)
    unfolding stored
    uploaded-Newest accepted older = record {
      key = summary_key;
      body = storage.summary_json summary;
      is_kept =
          stored-with_all summary_key (is_summary prefix now)
          ∙ rw (eq_refl bucket, eq_refl summary_key, accepted) refl;
      is_summary = record { under = under; named = is_summary prefix now };
      newest = λ k kept s. elim (Bool-cases (str_eq k summary_key)) [
        | inl same ↦ inl ((eq_iff k summary_key).0 same)
        | inr other ↦ inr (older k (rw (sym (stored-other k s.named other)) kept) s)
      ];
      reads =
          let (j, read, got) = back.reads_ceiling summary in
          (j, read, ceiling_of-shown F storage store back j ramp.ceiling_record got);
    }

  module _ (decimal : IsDecimal store.show) where
    stripped : (d : ℕ) → rstrip_char "/" (prefix_of store d) ≡ prefix_of store d
    stripped d =
        rstrip_char_none "experiment-2/relays-" (store.show d) (decimal.no_slash d)
          (decimal.some_digit d)

    elsewhere :
        (d : ℕ)
        → d ≢ c.relay_count
        → starts_with summary_key (folder storage.put_object store bucket d) ≡ false
    elsewhere d differ =
        rw (stripped c.relay_count, stripped d)
          (other_folder "experiment-2/relays-" (store.show c.relay_count) (store.show d)
            (now <> "_summary.json") (decimal.no_slash c.relay_count) (decimal.no_slash d)
            (λ e. differ (decimal.injective d c.relay_count (sym e))))

    -- The ceilings of before, with the run's own.
    abbrev pub with_run : ReadsBack F storage store → (ℕ → Option Json) → ℕ → Option Json
    with_run back ceilings d =
        if d == c.relay_count
        then some (shown F storage store back ramp.ceiling_record)
        else ceilings d

    others_kept :
        (back : ReadsBack F storage store) (ceilings : ℕ → Option Json) (counts : List ℕ)
        → Newest storage.put_object store bucket with_all c.relay_count
            (shown F storage store back ramp.ceiling_record)
        → All
            (λ d. d ≢ c.relay_count → Loads storage.put_object store bucket t d (ceilings d))
            counts
        → All
            (λ d. Loads storage.put_object store bucket with_all d (with_run back ceilings d))
            counts
    others_kept back ceilings [] own all = tt
    others_kept back ceilings (d ∷ counts) own (h, all) = (
      elim (Bool-cases (d == c.relay_count)) [
        | inl e ↦ let same : d ≡ c.relay_count = ground arith in rw e (rw same own)
        | inr e ↦
            let differ : d ≢ c.relay_count = ground arith in
            rw e (uploaded-Loads-other d (ceilings d) (elsewhere d differ) (h differ))
      ],
      others_kept back ceilings counts own all,
    )

    -- Let a bucket of at most 997 uploads have, for each of the charts' relay counts 2, 5, 10 and 20
    -- that is not a run's own, no summary or a newest one with a known ceiling, and let the run be
    -- stored under the default prefix. If storing raises nothing but errors of AWS, the summary is
    -- accepted, and the bucket's older summaries of the run's relay count have names before the new
    -- one, then the charts load for these four in order the known ceilings, with no entry where
    -- there is no summary, and for the run's relay count, if it is one of them, the run's own
    -- ceiling, or an empty dict if no step was within bounds. A run of another relay count changes
    -- nothing of what they load.
    pub load_summaries_from_s3-upload_scaling :
        (back : ReadsBack F storage store) (ceilings : ℕ → Option Json)
        → IsBucket storage.put_object bucket store
        → RaisesAws F storage
        → str_eq bucket "" ≡ false
        → storage.put_object with_steps bucket summary_key (storage.summary_json summary) ≡ ok tt
        → ((k : String)
            → is_some (stored storage.put_object bucket k t) ≡ true
            → IsSummary storage.put_object store bucket c.relay_count k
            → le_text summary_key k ≡ false)
        → puts storage.put_object bucket t ≤ 997
        → All
            (λ d. d ≢ c.relay_count → Loads storage.put_object store bucket t d (ceilings d))
            (2 ∷ 5 ∷ 10 ∷ 20 ∷ [])
        → (load_summaries_from_s3 store bucket uploaded).0
          ≡ ok (entries (with_run back ceilings) (2 ∷ 5 ∷ 10 ∷ 20 ∷ []))
    unfolding load_summaries_from_s3
    load_summaries_from_s3-upload_scaling back ceilings s3 aws named accepted older few all =
        ap (λ end. (load_summaries_from_s3 store bucket end.1).0)
          (upload_scaling-stores F storage c bucket prefix ramp stats t aws named)
        ∙ load_from_s3-Loads storage.put_object store bucket (with_run back ceilings) relay_counts
            with_all s3 (omega (arith, few, puts-with_all))
            (others_kept back ceilings relay_counts (uploaded-Newest back accepted older) all)
