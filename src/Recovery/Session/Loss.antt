-- ===== src/Recovery/Session/Loss.antt =====
-- The chart of the request loss counts the requests that raised.
use torr_bsds.Base.{
  ℕ, zero, suc, ◌+◌, String, ◌≡◌, refl, ◌∙◌, ap, inl, inr, List, [], ◌∷◌, ◌++◌, map, str_eq,
  if◌then◌else◌, arith,
}
use torr_bsds.Runtime.Json.{Result, ok, err}
use torr_bsds.Runtime.Env.{Env}
use torr_bsds.Recovery.Task.{Row, State}
use torr_bsds.Recovery.User.{Config, send_request}
use torr_bsds.Recovery.User.Logging.{Statuses, IsFailure}
use torr_bsds.Recovery.User.Rows.{LoggedFailure, send_request_rows}
use torr_bsds.Charts.{failures, compute_request_loss}
use torr_bsds.Recovery.Session.{raised, session, sample_of}

lost : List String → ℕ
lost [] = 0
lost (status ∷ l) = (if str_eq status "success" then 0 else 1) + lost l

lost-append : (xs ys : List String) → lost (xs ++ ys) ≡ lost xs + lost ys
unfolding lost
lost-append [] ys = omega arith
lost-append (x ∷ xs) ys = omega (arith, lost-append xs ys)

lost_one : (status : String) → IsFailure status → lost (status ∷ []) ≡ 1
unfolding lost
lost_one status (inl e) = rw e refl
lost_one status (inr (inl e)) = rw e refl
lost_one status (inr (inr e)) = rw e refl

lost_two : (status : String) → IsFailure status → lost ("success" ∷ status ∷ []) ≡ 1
unfolding lost
lost_two status (inl e) = rw e refl
lost_two status (inr (inl e)) = rw e refl
lost_two status (inr (inr e)) = rw e refl

compute_request_loss-lost :
    (strptime : String → ℕ) (rows : List Row)
    → compute_request_loss (map (sample_of strptime) rows) ≡ lost (map (λ (r : Row). r.status) rows)
unfolding compute_request_loss failures lost
compute_request_loss-lost strptime [] = refl
compute_request_loss-lost strptime (r ∷ rows) =
    ground (arith, compute_request_loss-lost strptime rows)

module _ (env : Env) (c : Config) where
  statuses : State → List String
  statuses s = map (λ (r : Row). r.status) s.0.csv_rows

  send_request-lost :
      (s : State) (r : Result (Unit {0})) (s' : State)
      → send_request env c s ≡ (r, s')
      → lost (statuses s') ≡ lost (statuses s) + raised r
  unfolding statuses
  send_request-lost s (ok _) s' e =
      let now : Statuses (statuses s ++ ("success" ∷ [])) s'.0 =
        rw e at (send_request_rows env c (statuses s) s refl) in
      ap lost now ∙ lost-append (statuses s) ("success" ∷ []) ∙ unfold lost in omega arith
  send_request-lost s (err x) s' e =
      let logged : LoggedFailure env c (statuses s) s'.0 =
        rw e at (send_request_rows env c (statuses s) s refl) in
      elim logged.rows [
        | inl one ↦
            ap lost one
            ∙ lost-append (statuses s) (logged.status ∷ [])
            ∙ omega (arith, lost_one logged.status logged.failure)
        | inr two ↦
            ap lost two
            ∙ lost-append (statuses s) ("success" ∷ logged.status ∷ [])
            ∙ omega (arith, lost_two logged.status logged.failure)
      ]

  session-lost :
      (n : ℕ) (s : State)
      → lost (statuses (session env c n s).1) ≡ lost (statuses s) + (session env c n s).0
  unfolding session
  session-lost zero s = omega arith
  session-lost (suc n) s =
      let (r, s') = send_request env c s in
      omega (arith, session-lost n s', send_request-lost s r s' refl)

  -- Of a user that starts with no rows, the request loss that the charts show is the number of
  -- its requests that raised, however the two kinds of rebuild end and whatever polls end
  -- meanwhile; also of the requests that were first logged as a success.
  pub session-compute_request_loss :
      (strptime : String → ℕ) (n : ℕ) (s : State)
      → s.0.csv_rows ≡ []
      → compute_request_loss (map (sample_of strptime) (session env c n s).1.0.csv_rows)
        ≡ (session env c n s).0
  unfolding statuses lost
  session-compute_request_loss strptime n s empty =
      let none_yet : lost (statuses s) ≡ 0 =
        ap (λ rows. lost (map (λ (r : Row). r.status) rows)) empty in
      omega (
        arith,
        compute_request_loss-lost strptime (session env c n s).1.0.csv_rows,
        session-lost n s,
        none_yet,
      )
