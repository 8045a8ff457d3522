-- ===== src/Tests/Stored.antt =====
-- A bucket that keeps what is put there, and a run that the charts load from it.
use text.Mathlib.Text.{starts_with}
use torr_bsds.Base.{
  ℕ, zero, suc, String, ◌≡◌, ◌≢◌, refl, sym, ap, ◌∙◌, Bool, true, false, ◌&&◌, inl, inr, Option,
  none, some, List, [], ◌∷◌, ◌==◌, str_eq, eq_iff, Bool-cases, if◌then◌else◌, arith,
}
use torr_bsds.Runtime.Json.{
  Json, null, num, obj, field, end, get_or, lookup, truthy, Result, ok, err, library,
}
use torr_bsds.Runtime.Exec.{Event, Trace, called, put_object}
use torr_bsds.Runtime.Text.{ends_with, le_text, rstrip_char, rstrip}
use torr_bsds.Runtime.Text.Prefix.{has_slash}
use torr_bsds.Load.Ramp.{StepRecord, Ramp, start}
use torr_bsds.Load.Ramp.Records.{run}
use torr_bsds.Upload.{Storage}
use torr_bsds.Scaling.{Store, s3_list_keys, load_summaries_from_s3}
use torr_bsds.Scaling.Latest.{contains}
use torr_bsds.Scaling.Bucket.{is_some, stored, puts, IsBucket}
use torr_bsds.Scaling.Newest.{folder, IsSummary, Newest, Loads, entries}
use torr_bsds.Scaling.Uploaded.{ReadsBack, IsDecimal, shown}
use torr_bsds.Scaling.Uploaded.Reload.{uploaded, load_summaries_from_s3-upload_scaling}
use torr_bsds.Scaling.Combined.{combined_key, combined_keys-combined_key}
use torr_bsds.Scaling.Figures.{combined_keys}
use torr_bsds.Tests.Scripts.{cloud, args}
use torr_bsds.Tests.Charts.{desk}
use torr_bsds.Tests.Load.{whole, settings, ticks}

-- Numbers in tallies.
unfoldable digits : ℕ → String
digits zero = "0"
digits (suc n) = String.◌∷◌ "1" (digits n)

abbrev tail : String → String
tail String.[] = ""
tail (String.◌∷◌ c s) = s

abbrev is_one : String → Bool
is_one String.[] = false
is_one (String.◌∷◌ c s) = str_eq (String.◌∷◌ c "") "1"

digits-no_slash : (n : ℕ) → has_slash (digits n) ≡ false
unfolding digits has_slash
digits-no_slash zero = refl
digits-no_slash (suc n) = digits-no_slash n

some_digit : (n : ℕ) → digits n ≢ ""
unfolding digits
some_digit zero e = let f : str_eq "0" "" ≡ true = (eq_iff "0" "").1 e in cc
some_digit (suc n) e = let f : is_one (digits (suc n)) ≡ false = ap is_one e in cc

digits-injective : (m n : ℕ) → digits m ≡ digits n → m ≡ n
unfolding digits
digits-injective zero zero e = refl
digits-injective zero (suc n) e = let f : false ≡ true = ap is_one e in cc
digits-injective (suc m) zero e = let f : true ≡ false = ap is_one e in cc
digits-injective (suc m) (suc n) e = ap suc (digits-injective m n (ap tail e))

abbrev ceiling_text : Option (StepRecord whole) → List ℕ
ceiling_text none = []
ceiling_text (some r) = r.users ∷ []

-- S3 takes everything.
abbrev storage : Storage whole
storage = record {
  put_object = λ _ _ _ _. ok tt;
  write_file = λ _ _ _. ok tt;
  is_aws_error = λ _. true;
  timestamp = λ _. "now";
  scenario_csv = λ _. 1 ∷ [];
  relay_csv = λ _. 2 ∷ [];
  steps_csv = λ _. 3 ∷ [];
  requests_csv = λ _. 4 ∷ [];
  summary_json = λ s. ceiling_text s.ceiling;
}

-- The keys of the uploads.
abbrev put_key : Event → List String → List String
put_key (called (put_object b k body)) keys = k ∷ keys
put_key _ keys = keys

unfoldable put_keys : Trace → List String
put_keys [] = []
put_keys (e ∷ t) = put_key e (put_keys t)

abbrev is_stored : String → Trace → Bool
is_stored k t = is_some (stored storage.put_object "b" k t)

unfoldable kept : String → Trace → List String → List String
kept prefix t [] = []
kept prefix t (k ∷ ks) =
    let rest = kept prefix t ks in if starts_with k prefix && is_stored k t then k ∷ rest else rest

abbrev body_or_error : Option (List ℕ) → Result (List ℕ)
body_or_error none = err (library "NoSuchKey")
body_or_error (some body) = ok body

abbrev users_json : List ℕ → Json
users_json [] = null
users_json (users ∷ _) = obj (field "users" (num users) end)

abbrev store : Store
store = record {
  list_objects = λ t bucket prefix. ok (some (kept prefix t (put_keys t)));
  get_object = λ t bucket key. body_or_error (stored storage.put_object "b" key t);
  list_dir = λ dir. [];
  read_file = λ dir name. ok [];
  loads = λ body. ok (obj (field "ceiling" (users_json body) end));
  show = digits;
}

contains-kept :
    (key prefix : String) (t : Trace) (ks : List String)
    → contains key (kept prefix t ks)
      ≡ (contains key ks && (starts_with key prefix && is_stored key t))
unfolding contains kept
contains-kept key prefix t [] = refl
contains-kept key prefix t (k ∷ ks) =
    let rest = contains-kept key prefix t ks in
    elim (Bool-cases (str_eq key k)) [
      | inr other ↦ rw other (ground arith)
      | inl same ↦
          let at_key : (starts_with k prefix && is_stored k t)
              ≡ (starts_with key prefix && is_stored key t) =
            sym (ap (λ k. starts_with k prefix && is_stored k t) ((eq_iff key k).0 same)) in
          rw (at_key, same) (ground arith)
    ]

-- What is stored has been put there.
put_keys-contains :
    (key : String) (t : Trace) → is_stored key t ≡ true → contains key (put_keys t) ≡ true
unfolding stored put_keys contains
put_keys-contains key [] h = cc
put_keys-contains key (called (put_object b k body) ∷ t) h =
    let rest = put_keys-contains key t in ground arith
put_keys-contains key (e ∷ t) h = put_keys-contains key t h

bucket : IsBucket storage.put_object "b" store
bucket = record {
  listing = λ t prefix few. (
    some (kept prefix t (put_keys t)),
    refl,
    λ key.
        let put = put_keys-contains key t in
        contains-kept key prefix t (put_keys t) ∙ (ground arith),
  );
  getting = λ t key body e. rw e refl;
}

same_ceiling :
    (o : Option (StepRecord whole))
    → users_json (ceiling_text o)
      ≡ (elim o [ none ↦ null | some r ↦ obj (field "users" (num r.users) end) ])
same_ceiling none = refl
same_ceiling (some r) = refl

back : ReadsBack whole storage store
unfolding truthy get_or lookup
back = record {
  json_of = λ r. obj (field "users" (num r.users) end);
  is_truthy = λ r. refl;
  reads_ceiling = λ s. (_, refl, ap ok (same_ceiling s.ceiling));
}

-- A run of five relays has been stored.
abbrev earlier : Trace
earlier = called (put_object "b" "experiment-2/relays-111110/then_summary.json" []) ∷ []

abbrev its_key : String
its_key = "experiment-2/relays-111110/then_summary.json"

earlier_key : (k : String) → is_stored k earlier ≡ true → k ≡ its_key
unfolding stored
earlier_key k h = (eq_iff k its_key).0 (ground arith)

decimal : IsDecimal digits
decimal = record {
  no_slash = digits-no_slash;
  some_digit = some_digit;
  injective = digits-injective;
}

earlier-Newest : Newest storage.put_object store "b" earlier 5 (obj end)
unfolding stored get_or lookup torr_bsds.Scaling.ceiling_of truthy digits rstrip_char rstrip
    ends_with
earlier-Newest = record {
  key = its_key;
  body = [];
  is_kept = refl;
  is_summary = record { under = refl; named = refl };
  newest = λ k kept s. inl (earlier_key k kept);
  reads = (_, refl, refl);
}

older :
    (k : String)
    → is_stored k earlier ≡ true
    → IsSummary storage.put_object store "b" 2 k
    → le_text "experiment-2/relays-110/now_summary.json" k ≡ false
unfolding rstrip_char rstrip digits
older k kept s =
    let wrong : starts_with its_key "experiment-2/relays-110/" ≡ true =
      sym (ap (λ k. starts_with k "experiment-2/relays-110/") (earlier_key k kept)) ∙ s.under in
    absurd cc

-- The ramp of the other tests, after the earlier run.
abbrev ramp : Ramp whole
ramp = run whole settings ticks (start whole)

-- Only the relay count of the earlier run has a summary.
abbrev ceilings : ℕ → Option Json
ceilings d = if d == 5 then some (obj end) else none

-- The earlier run's summary is under no other relay count.
absent :
    (d : ℕ)
    → starts_with its_key (folder storage.put_object store "b" d) ≡ false
    → Loads storage.put_object store "b" earlier d none
absent d other k kept s =
    let wrong : starts_with its_key (folder storage.put_object store "b" d) ≡ true =
      sym (ap (λ k. starts_with k (folder storage.put_object store "b" d)) (earlier_key k kept))
      ∙ s.under in
    absurd cc

load_summaries_from_s3-upload_scaling_example :
    (load_summaries_from_s3 store "b" (uploaded storage store "b" settings ramp [] earlier)).0
    ≡ ok ((2, shown whole storage store back ramp.ceiling_record) ∷ (5, obj end) ∷ [])
unfolding stored puts rstrip_char rstrip digits entries
load_summaries_from_s3-upload_scaling_example =
    load_summaries_from_s3-upload_scaling storage store "b" settings ramp [] earlier decimal back
      ceilings bucket (λ t bucket key body e h. refl) refl refl older (omega arith)
      (
        (λ e. absent 2 refl),
        ((λ e. earlier-Newest), ((λ e. absent 10 refl), ((λ e. absent 20 refl), tt))),
      )

-- The export's file of all services, in the bucket.
abbrev exported : Trace
exported = called (put_object "b" (combined_key whole cloud args 10 12) (1 ∷ [])) ∷ []

combined_keys-combined_key_example :
    (keys : List String) × (u : Trace) × (s3_list_keys store "b" "metrics" exported ≡ (ok keys, u))
    × (contains (combined_key whole cloud args 10 12) (combined_keys store desk keys) ≡ true)
    × (store.get_object u "b" (combined_key whole cloud args 10 12) ≡ ok (1 ∷ []))
unfolding stored puts
combined_keys-combined_key_example =
    combined_keys-combined_key whole cloud args 10 12 storage.put_object store desk "b" exported
      (1 ∷ []) bucket refl (omega arith) refl
