-- ===== src/Scaling/Loaded.antt =====
-- The two loaders, where a bucket holds what a directory holds.
use mathlib.Core.Option
use torr_bsds.Base.{
  ℕ, String, ◌<>◌, ◌≡◌, refl, sym, ap, ◌∙◌, true, false, Option, none, some, inl, inr, List, [],
  ◌∷◌, map, Bool-cases, All,
}
use torr_bsds.Runtime.Json.{Result, ok, err}
use torr_bsds.Runtime.Exec.{Trace, called, list_objects, Result-cases, Outcome-cases}
use torr_bsds.Runtime.Text.{ends_with, rstrip_char, le_text}
use torr_bsds.Runtime.Text.Prefix.{has_slash, ends_with-prefix, le_text-prefix}
use torr_bsds.Runtime.Sort.{sort, sort-map}
use torr_bsds.Scaling.Latest.{contains, latest-having_suffix}
use torr_bsds.Scaling.{
  Store, relay_counts, having_suffix, last, latest, contents, ceiling_of, Summaries, prefix_of,
  s3_list_keys, s3_read_json, load_latest, load_from_s3, load_summaries_from_s3, dir_of,
  read_latest, load_from_dir, load_summaries_from_dir,
}

last-map : (f : String → String) (l : List String) → last (map f l) ≡ Option.map f (last l)
unfolding last
last-map f [] = refl
last-map f (x ∷ []) = refl
last-map f (x ∷ y ∷ l) = last-map f (y ∷ l)

module _ (store : Store) (bucket local_dir : String) where
  -- The key of a file of a relay count, under the prefix that is asked for.
  abbrev pub key_of : ℕ → String → String
  key_of count name = rstrip_char "/" (prefix_of store count) <> ("/" <> name)

  -- At any time, the bucket lists for this relay count the files of the directory, and each of
  -- these files reads the same from both.
  pub record Mirrors (count : ℕ) : Type 0 where
    pub listing :
        (t : Trace)
        → (listed : Option (List String)) × (store.list_objects t bucket
              (rstrip_char "/" (prefix_of store count) <> "/")
            ≡ ok listed)
          × (contents listed ≡ map (key_of count) (store.list_dir (dir_of store local_dir count)))
    pub reading :
        (t : Trace) (name : String)
        → contains name (store.list_dir (dir_of store local_dir count)) ≡ true
        → (body : List ℕ) × (store.get_object t bucket (key_of count name) ≡ ok body)
          × (store.read_file (dir_of store local_dir count) name ≡ ok body)

  having_suffix-map :
      (count : ℕ) (suffix : String) (names : List String)
      → has_slash suffix ≡ false
      → having_suffix suffix (map (key_of count) names)
        ≡ map (key_of count) (having_suffix suffix names)
  unfolding having_suffix
  having_suffix-map count suffix [] h = refl
  having_suffix-map count suffix (name ∷ names) h =
      let rest = having_suffix-map count suffix names h in
      let same = ends_with-prefix (rstrip_char "/" (prefix_of store count)) name suffix h in
      elim (Bool-cases (ends_with name suffix)) [
        | inl e ↦ rw (same, e) (ap (λ l. key_of count name ∷ l) rest)
        | inr e ↦ rw (same, e) rest
      ]

  latest-map :
      (count : ℕ) (names : List String)
      → latest (map (key_of count) names) ≡ Option.map (key_of count) (latest names)
  latest-map count names =
      ap last (
        sort-map le_text le_text (key_of count)
          (λ x y.
            le_text-prefix (rstrip_char "/" (prefix_of store count)) ("/" <> x) ("/" <> y)
            ∙ le_text-prefix "/" x y)
          names)
      ∙ last-map (key_of count) (sort le_text names)

  load_latest-reads :
      (count : ℕ) (name : Option String) (t : Trace)
      → Mirrors count
      → ((n : String)
          → name ≡ some n
          → contains n (store.list_dir (dir_of store local_dir count)) ≡ true)
      → (load_latest store bucket count (Option.map (key_of count) name) t).0
        ≡ read_latest store (dir_of store local_dir count) count name
  unfolding load_latest s3_read_json read_latest
  load_latest-reads count none t mirrors is_in = refl
  load_latest-reads count (some name) t mirrors is_in =
      let (body, same, e) = mirrors.reading t name (is_in name refl) in
      elim (Result-cases (store.loads body)) [
        | inr (x, f) ↦ rw (read_latest, same, e, f) refl
        | inl (summary, f) ↦ elim (Result-cases (ceiling_of summary)) [
          | inr (x, g) ↦ rw (read_latest, same, e, f, g) refl
          | inl (ceiling, g) ↦ rw (read_latest, same, e, f, g) refl
        ]
      ]

  -- What a relay count adds, loaded either way.
  from_s3 : (count : ℕ) → Option (List String) → Trace → Result Summaries × Trace
  from_s3 count listed =
      load_latest store bucket count (latest (having_suffix "_summary.json" (contents listed)))

  from_dir : (count : ℕ) → Result Summaries
  from_dir count =
      read_latest store (dir_of store local_dir count) count
        (latest (having_suffix "_summary.json" (store.list_dir (dir_of store local_dir count))))

  from_s3-dir :
      (count : ℕ) (listed : Option (List String)) (t : Trace)
      → Mirrors count
      → contents listed ≡ map (key_of count) (store.list_dir (dir_of store local_dir count))
      → (from_s3 count listed t).0 ≡ from_dir count
  unfolding from_s3 from_dir has_slash
  from_s3-dir count listed t mirrors same =
      let names = store.list_dir (dir_of store local_dir count) in
      ap (λ name. (load_latest store bucket count name t).0)
        (ap (λ l. latest (having_suffix "_summary.json" l)) same
          ∙ ap latest (having_suffix-map count "_summary.json" names refl)
          ∙ latest-map count (having_suffix "_summary.json" names))
      ∙ load_latest-reads count (latest (having_suffix "_summary.json" names)) t mirrors
          (λ n e. (latest-having_suffix "_summary.json" names n e).0)

  load_from_s3-dir :
      (counts : List ℕ) (t : Trace)
      → All Mirrors counts
      → (load_from_s3 store bucket counts t).0 ≡ load_from_dir store local_dir counts
  unfolding load_from_s3 s3_list_keys load_from_dir from_s3 from_dir
  load_from_s3-dir [] t h = refl
  load_from_s3-dir (count ∷ counts) t (mirrors, others) =
      let asked : Trace =
        called (list_objects bucket (rstrip_char "/" (prefix_of store count) <> "/")) ∷ t in
      let (listed, got, same) = mirrors.listing t in
      let one = from_s3-dir count listed asked mirrors same in
      elim (Outcome-cases (from_s3 count listed asked)) [
        | inr (x, u, e) ↦
            let f : from_dir count ≡ err x = sym one ∙ ap (λ r. r.0) e in
            rw (load_from_dir, got, e, f) refl
        | inl (entry, u, e) ↦
            let f : from_dir count ≡ ok entry = sym one ∙ ap (λ r. r.0) e in
            let rest = load_from_s3-dir counts u others in
            elim (Outcome-cases (load_from_s3 store bucket counts u)) [
              | inr (x, v, g) ↦
                  let k : load_from_dir store local_dir counts ≡ err x =
                    sym rest ∙ ap (λ r. r.0) g in
                  rw (load_from_dir, got, e, f, g, k) refl
              | inl (found, v, g) ↦
                  let k : load_from_dir store local_dir counts ≡ ok found =
                    sym rest ∙ ap (λ r. r.0) g in
                  rw (load_from_dir, got, e, f, g, k) refl
            ]
      ]

  -- If the bucket lists at any time, for each relay count of the charts, the files that the local
  -- directory of that relay count has, and these files read the same from both, then loading the
  -- summaries from the bucket gives the same as loading them from the directory: the same ceilings,
  -- or the same exception.
  pub load_summaries_from_s3-dir :
      (t : Trace)
      → All Mirrors relay_counts
      → (load_summaries_from_s3 store bucket t).0 ≡ load_summaries_from_dir store local_dir
  unfolding load_summaries_from_s3 load_summaries_from_dir
  load_summaries_from_s3-dir t h = load_from_s3-dir relay_counts t h
