-- ===== src/Summary/Sorted.antt =====
-- The rows that the latency charts draw.
use mathlib.Core.List.{Perm}
use mathlib.Core.List.Perm
use torr_bsds.Base.{String, ◌≡◌, refl, ap, sym, inl, inr, List, [], ◌∷◌, map, All, subst}
use torr_bsds.Runtime.Json.{ok}
use torr_bsds.Runtime.Exec.{Result-cases, ok-inj, ok_ne_err}
use torr_bsds.Runtime.Sort.{sort, IsSorted, IsTotal, sort-perm, sort-IsSorted, sort-All}
use torr_bsds.Summary.{Row, column, filter_scenario, Ints, int_of, with_keys, le_key, rows_for}

module _ (I : Ints) where
  -- The key of a row is its concurrency.
  abbrev pub IsKeyed : I.Int × Row → Type 0
  IsKeyed x = (value : _) × (column x.1 "concurrency" ≡ ok value) × (int_of I value ≡ ok x.0)

  -- These rows in the order of their concurrency.
  pub record IsInOrder (filtered result : List Row) : Type 0 where
    pub keyed : List (I.Int × Row)
    pub rows : map (λ (x : I.Int × Row). x.1) keyed ≡ result
    pub keys : All IsKeyed keyed
    pub sorted : IsSorted (le_key I) keyed
    pub perm : Perm result filtered

  with_keys-keyed :
      (rows : List Row) (keyed : List (I.Int × Row))
      → with_keys I rows ≡ ok keyed
      → (map (λ (x : I.Int × Row). x.1) keyed ≡ rows) × All IsKeyed keyed
  unfolding with_keys
  with_keys-keyed [] keyed e = let same : [] ≡ keyed = ok-inj e in rw (sym same) (refl, tt)
  with_keys-keyed (row ∷ rows) keyed e = elim (Result-cases (column row "concurrency")) [
    | inr (x, missing) ↦ absurd (ok_ne_err (sym (rw (with_keys, missing) at e)))
    | inl (value, found) ↦ elim (Result-cases (int_of I value)) [
      | inr (x, bad) ↦ absurd (ok_ne_err (sym (rw (with_keys, found, bad) at e)))
      | inl (key, read) ↦ elim (Result-cases (with_keys I rows)) [
        | inr (x, later) ↦ absurd (ok_ne_err (sym (rw (with_keys, found, read, later) at e)))
        | inl (rest, all) ↦
            let (same, keys) = with_keys-keyed rows rest all in
            let whole : ((key, row) ∷ rest) ≡ keyed =
              ok-inj (rw (with_keys, found, read, all) at e) in
            rw (sym whole) (ap (λ l. row ∷ l) same, ((value, found, read), keys))
      ]
    ]
  ]

  -- If the comparison of the numbers is total: where the rows of a scenario can be given, they are
  -- that scenario's rows of the summary, each as often as there, in the order of their
  -- concurrency.
  pub rows_for-IsInOrder :
      (rows : List Row) (scenario : String) (result : List Row)
      → IsTotal I.le
      → rows_for I rows scenario ≡ ok result
      → (filtered : List Row) × (filter_scenario scenario rows ≡ ok filtered)
        × IsInOrder filtered result
  unfolding rows_for
  rows_for-IsInOrder rows scenario result total e =
      elim (Result-cases (filter_scenario scenario rows)) [
        | inr (x, failed) ↦ absurd (ok_ne_err (sym (rw (rows_for, failed) at e)))
        | inl (filtered, all) ↦ elim (Result-cases (with_keys I filtered)) [
          | inr (x, failed) ↦ absurd (ok_ne_err (sym (rw (rows_for, all, failed) at e)))
          | inl (keyed, read) ↦
              let (same, keys) = with_keys-keyed filtered keyed read in
              let order : List (I.Int × Row) = sort (le_key I) keyed in
              (
                filtered,
                all,
                record {
                  keyed = order;
                  rows = ok-inj (rw (rows_for, all, read) at e);
                  keys = sort-All (le_key I) IsKeyed keyed keys;
                  sorted = sort-IsSorted (le_key I) (λ x y h. total x.0 y.0 h) keyed;
                  perm = rw (ok-inj (rw (rows_for, all, read) at e)) at (
                      subst (λ l. Perm (map (λ (x : I.Int × Row). x.1) order) l) same
                        (Perm.map (λ (x : I.Int × Row). x.1) (sort-perm (le_key I) keyed)));
                },
              )
        ]
      ]
