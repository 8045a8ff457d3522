-- ===== src/Scaling/Newest.antt =====
-- experiments/scripts/generate_exp2_charts.py on a bucket of which the newest summaries are known.
use text.Mathlib.Text.{starts_with}
use torr_bsds.Base.{
  ℕ, ◌≤◌, String, ◌<>◌, ◌≡◌, refl, sym, ap, ◌∙◌, Bool, true, false, ◌&&◌, ◌⊎◌, inl, inr, Option,
  none, some, Option-cases, ◌++◌, List, [], ◌∷◌, All, arith,
}
use torr_bsds.Runtime.Json.{Json, ok}
use torr_bsds.Runtime.Exec.{
  Trace, called, list_objects, get_object, Outcome-cases, ok-inj, ok_ne_err,
}
use torr_bsds.Runtime.Text.{ends_with, rstrip_char, le_text}
use torr_bsds.Scaling.{
  Store, having_suffix, latest, contents, ceiling_of, Summaries, prefix_of, s3_list_keys,
  s3_read_json, load_latest, load_from_s3,
}
use torr_bsds.Scaling.Latest.{
  contains, contains-having_suffix, latest_greatest, latest-having_suffix,
}
use torr_bsds.Scaling.Bucket.{Put, is_some, stored, puts, IsBucket}

-- The entry of a relay count, if it has a summary.
abbrev pub entry : ℕ → Option Json → Summaries
entry count none = []
entry count (some ceiling) = (count, ceiling) ∷ []

-- The entries of the relay counts in order, given the ceilings of those that have a summary.
unfoldable pub entries : (ℕ → Option Json) → List ℕ → Summaries
entries ceilings [] = []
entries ceilings (count ∷ counts) = entry count (ceilings count) ++ entries ceilings counts

module _ (put : Put) (store : Store) (bucket : String) where
  -- What the keys of a relay count start with.
  abbrev pub folder : ℕ → String
  folder count = rstrip_char "/" (prefix_of store count) <> "/"

  -- A key that is a summary of this relay count.
  pub record IsSummary (count : ℕ) (key : String) : Type 0 where
    pub under : starts_with key (folder count) ≡ true
    pub named : ends_with key "_summary.json" ≡ true

  -- After the trace, the last summary of this relay count in the bucket reads with this ceiling.
  pub record Newest (t : Trace) (count : ℕ) (ceiling : Json) : Type 0 where
    pub key : String
    pub body : List ℕ
    pub is_kept : stored put bucket key t ≡ some body
    pub is_summary : IsSummary count key
    pub newest :
        (k : String)
        → is_some (stored put bucket k t) ≡ true
        → IsSummary count k
        → (k ≡ key) ⊎ (le_text key k ≡ false)
    pub reads :
        (summary : Json) × (store.loads body ≡ ok summary) × (ceiling_of summary ≡ ok ceiling)

  -- What a relay count has in the bucket after the trace: no summary, or such a newest one.
  abbrev pub Loads : Trace → ℕ → Option Json → Type 0
  Loads t count none = (k : String) → is_some (stored put bucket k t) ≡ true → ¬ IsSummary count k
  Loads t count (some ceiling) = Newest t count ceiling

  split : {a b c : Bool} → ((a && b) && c) ≡ true → (a ≡ true) × (b ≡ true) × (c ≡ true)
  split {a} {b} {c} h = ground arith

  both : {a b : Bool} → (a && b) ≡ true → (a ≡ true) × (b ≡ true)
  both {a} {b} h = ground arith

  latest-Newest :
      {t : Trace} {count : ℕ} {ceiling : Json} (new : Newest t count ceiling) (listed : List String)
      → ((key : String)
          → contains key listed
            ≡ (starts_with key (folder count) && is_some (stored put bucket key t)))
      → latest (having_suffix "_summary.json" listed) ≡ some new.key
  latest-Newest {t} {count} new listed lists =
      let has : (k : String)
          → contains k (having_suffix "_summary.json" listed) ≡ (
              (starts_with k (folder count) && is_some (stored put bucket k t))
              && ends_with k "_summary.json") =
        λ k.
          contains-having_suffix k "_summary.json" listed
          ∙ ap (λ b. b && ends_with k "_summary.json") (lists k) in
      let (m, e, is_in, le) =
        latest_greatest new.key (having_suffix "_summary.json" listed)
          (has new.key ∙ rw (new.is_summary.under, new.is_kept, new.is_summary.named) refl) in
      let (under, kept, named) = split (sym (has m) ∙ is_in) in
      elim (new.newest m kept (record { under = under; named = named })) [
        | inl same ↦ e ∙ ap some same
        | inr less ↦ absurd cc
      ]

  latest-none :
      (t : Trace) (count : ℕ) (listed : List String)
      → Loads t count none
      → ((key : String)
          → contains key listed
            ≡ (starts_with key (folder count) && is_some (stored put bucket key t)))
      → latest (having_suffix "_summary.json" listed) ≡ none
  latest-none t count listed absent lists =
      elim (Option-cases (latest (having_suffix "_summary.json" listed))) [
        | inl e ↦ e
        | inr (m, e) ↦
            let (is_in, named) = latest-having_suffix "_summary.json" listed m e in
            let (under, kept) = both (sym (lists m) ∙ is_in) in
            absurd (absent m kept (record { under = under; named = named }))
      ]

  -- Reading changes nothing.
  Loads-listed :
      (t : Trace) (p : String) (count : ℕ) (o : Option Json)
      → Loads t count o
      → Loads (called (list_objects bucket p) ∷ t) count o
  unfolding stored
  Loads-listed t p count none absent = absent
  Loads-listed t p count (some ceiling) new = record {
    key = new.key;
    body = new.body;
    is_kept = new.is_kept;
    is_summary = new.is_summary;
    newest = new.newest;
    reads = new.reads;
  }

  Loads-got :
      (t : Trace) (key : String) (count : ℕ) (o : Option Json)
      → Loads t count o
      → Loads (called (get_object bucket key) ∷ t) count o
  unfolding stored
  Loads-got t key count none absent = absent
  Loads-got t key count (some ceiling) new = record {
    key = new.key;
    body = new.body;
    is_kept = new.is_kept;
    is_summary = new.is_summary;
    newest = new.newest;
    reads = new.reads;
  }

  -- What loading a relay count gives, and that the bucket is afterwards as it was.
  record Loaded (t : Trace) (count : ℕ) (o : Option Json) : Type 0 where
    listed : Option (List String)
    end_trace : Trace
    lists : store.list_objects t bucket (folder count) ≡ ok listed
    loads :
        load_latest store bucket count
          (latest (having_suffix "_summary.json" (contents listed)))
          (called (list_objects bucket (folder count)) ∷ t)
        ≡ (ok (entry count o), end_trace)
    keeps : (d : ℕ) (o : Option Json) → Loads t d o → Loads end_trace d o
    few : puts put bucket end_trace ≡ puts put bucket t

  load_latest-Loaded :
      (t : Trace) (count : ℕ) (o : Option Json)
      → IsBucket put bucket store
      → puts put bucket t ≤ 1000
      → Loads t count o
      → Loaded t count o
  unfolding load_latest s3_read_json stored puts
  load_latest-Loaded t count none s3 few absent =
      let (listed, got, lists) = s3.listing t (folder count) few in
      let missing = latest-none t count (contents listed) absent lists in
      record {
        listed = listed;
        end_trace = called (list_objects bucket (folder count)) ∷ t;
        lists = got;
        loads = rw missing refl;
        keeps = λ d o h. Loads-listed t (folder count) d o h;
        few = refl;
      }
  load_latest-Loaded t count (some ceiling) s3 few new =
      let (listed, got, lists) = s3.listing t (folder count) few in
      let (summary, loaded, read) = new.reads in
      let asked : Trace = called (list_objects bucket (folder count)) ∷ t in
      let got_body = s3.getting asked new.key new.body new.is_kept in
      let found = latest-Newest new (contents listed) lists in
      record {
        listed = listed;
        end_trace = called (get_object bucket new.key) ∷ asked;
        lists = got;
        loads = rw (found, got_body, loaded, read) refl;
        keeps = λ d o h. Loads-got asked new.key d o (Loads-listed t (folder count) d o h);
        few = refl;
      }

  keeps-All :
      (ceilings : ℕ → Option Json) (counts : List ℕ) {t u : Trace}
      → ((d : ℕ) (o : Option Json) → Loads t d o → Loads u d o)
      → All (λ d. Loads t d (ceilings d)) counts
      → All (λ d. Loads u d (ceilings d)) counts
  keeps-All ceilings [] keeps all = tt
  keeps-All ceilings (d ∷ counts) keeps (h, all) =
      (keeps d (ceilings d) h, keeps-All ceilings counts keeps all)

  -- A bucket of at most a thousand uploads gives, for each of the relay counts that has a summary,
  -- the ceiling of its newest one.
  pub load_from_s3-Loads :
      (ceilings : ℕ → Option Json) (counts : List ℕ) (t : Trace)
      → IsBucket put bucket store
      → puts put bucket t ≤ 1000
      → All (λ d. Loads t d (ceilings d)) counts
      → (load_from_s3 store bucket counts t).0 ≡ ok (entries ceilings counts)
  unfolding load_from_s3 s3_list_keys entries
  load_from_s3-Loads ceilings [] t s3 few all = refl
  load_from_s3-Loads ceilings (count ∷ counts) t s3 few (h, all) =
      let one = load_latest-Loaded t count (ceilings count) s3 few h in
      let rest =
        load_from_s3-Loads ceilings counts one.end_trace s3 (omega (arith, few, one.few))
          (keeps-All ceilings counts one.keeps all) in
      elim (Outcome-cases (load_from_s3 store bucket counts one.end_trace)) [
        | inl (others, u, g) ↦
            let same : others ≡ entries ceilings counts = ok-inj (sym (ap (λ r. r.0) g) ∙ rest) in
            rw (one.lists, one.loads, g, same) refl
        | inr (x, u, g) ↦ absurd (ok_ne_err (sym rest ∙ ap (λ r. r.0) g))
      ]
