-- ===== src/Recovery/Crowd.antt =====
-- Several users of experiments/experiment3/locustfile.py at once. They share `_csv_rows`, to which
-- each appends its rows one at a time under the lock; so the shared list holds the rows of each
-- user in their order, and those of different users in any order. What the users see of each other
-- otherwise is in their worlds, which may differ.
pub mod Loss
use torr_bsds.Base.{ℕ, ◌+◌, List, [], ◌∷◌, map}
use torr_bsds.Runtime.Env.{Env}
use torr_bsds.Recovery.Task.{Row, State}
use torr_bsds.Recovery.User.{Config}
use torr_bsds.Recovery.Session.{session}

-- The two lists, each in its order, in one.
pub data Merge {A : Type 0} : List A → List A → List A → Type 0 where
  neither : Merge [] [] []
  left : (x : A) {xs ys zs : List A} → Merge xs ys zs → Merge (x ∷ xs) ys (x ∷ zs)
  right : (y : A) {xs ys zs : List A} → Merge xs ys zs → Merge xs (y ∷ ys) (y ∷ zs)

-- The lists of all users in one.
pub data Shared : List (List Row) → List Row → Type 0 where
  nobody : Shared [] []
  somebody :
      {own rest all : List Row} {others : List (List Row)}
      → Shared others rest
      → Merge own rest all
      → Shared (own ∷ others) all

-- A user: its world, how many requests it makes, and how it starts.
pub record Visitor : Type 0 where
  pub env : Env
  pub requests : ℕ
  pub start : State

-- The rows that a user has added, and how many of its requests raised.
abbrev pub rows_of : Config → Visitor → List Row
rows_of c v = (session v.env c v.requests v.start).1.0.csv_rows

abbrev pub raised_by : Config → Visitor → ℕ
raised_by c v = (session v.env c v.requests v.start).0

unfoldable pub raised_by_all : Config → List Visitor → ℕ
raised_by_all c [] = 0
raised_by_all c (v ∷ visitors) = raised_by c v + raised_by_all c visitors
