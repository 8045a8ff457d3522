-- ===== src/Recovery/Crowd/Loss.antt =====
-- The request loss of several users.
use torr_bsds.Base.{ℕ, ◌+◌, String, ◌≡◌, refl, List, [], ◌∷◌, map, arith, All}
use torr_bsds.Recovery.Task.{Row}
use torr_bsds.Recovery.User.{Config}
use torr_bsds.Recovery.Session.{sample_of}
use torr_bsds.Recovery.Session.Loss.{session-compute_request_loss}
use torr_bsds.Charts.{compute_request_loss, failures}
use torr_bsds.Recovery.Crowd.{
  Merge, neither, left, right, Shared, nobody, somebody, Visitor, rows_of, raised_by_all,
}

module _ (strptime : String → ℕ) where
  -- What the chart shows of rows that were written.
  loss : List Row → ℕ
  loss rows = compute_request_loss (map (sample_of strptime) rows)

  loss-Merge : {xs ys zs : List Row} → Merge xs ys zs → loss zs ≡ loss xs + loss ys
  unfolding loss compute_request_loss failures
  loss-Merge neither = omega arith
  loss-Merge (left x {xs} {ys} {zs} m) = let e = loss-Merge m in ground arith
  loss-Merge (right y {xs} {ys} {zs} m) = let e = loss-Merge m in ground arith

  -- Of users that start with no rows, the request loss that the charts show is the number of the
  -- requests of all users that raised, in whatever order the users' rows come into the shared list.
  pub Shared-compute_request_loss :
      (c : Config) (visitors : List Visitor) (all : List Row)
      → All (λ v. v.start.0.csv_rows ≡ []) visitors
      → Shared (map (rows_of c) visitors) all
      → compute_request_loss (map (sample_of strptime) all) ≡ raised_by_all c visitors
  unfolding raised_by_all loss compute_request_loss failures
  Shared-compute_request_loss c [] all empty nobody = refl
  Shared-compute_request_loss c (v ∷ visitors) all (e, es) (somebody {rest = rest} others m) =
      let own = session-compute_request_loss v.env c strptime v.requests v.start e in
      let theirs = Shared-compute_request_loss c visitors rest es others in
      omega (arith, loss-Merge m, own, theirs)
