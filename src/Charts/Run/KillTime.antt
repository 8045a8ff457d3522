-- ===== src/Charts/Run/KillTime.antt =====
-- The time of the kill, from the failure injection to the charts.
use torr_bsds.Base.{
  ℕ, String, ◌≡◌, refl, Bool, str_eq, false, true, some, [], ◌∷◌, ◌⊎◌, inl, inr, Bool-cases,
}
use torr_bsds.Runtime.Json.{Json, ok, index, lookup, as_str}
use torr_bsds.Kill.{Aws, kill_event}
use torr_bsds.Kill as Kill
use torr_bsds.Charts.Run.{
  Host, Args, ByMode, find_mode, set_mode, load_kill_event, set_kill_time, set_kill_times,
  kill_times,
}

-- The package `datetime` reads the times that it writes.
abbrev pub ReadsTimes : Aws → Host → Type 0
ReadsTimes aws host = (time : ℕ) → host.fromisoformat (aws.isoformat time) ≡ ok time

module _ (aws : Aws) (host : Host) (reads : ReadsTimes aws host) where
  -- The file holds an event that the failure injection has made at this time.
  abbrev pub Holds : String → ℕ → Type 0
  Holds path kill_time =
      (args : Kill.Args) × (task_id : String) × (node_id : Json) × (success : Bool)
      × (host.read_json path ≡ ok (kill_event aws args task_id node_id kill_time success))

  load_kill_event-Holds :
      (path : String) (kill_time : ℕ)
      → Holds path kill_time
      → load_kill_event host path ≡ ok kill_time
  unfolding load_kill_event index lookup as_str
  load_kill_event-Holds path kill_time (args, task_id, node_id, success, e) =
      rw (e, reads kill_time) refl

  -- If `datetime` reads the times that it writes: where each run has its own kill event, written by
  -- the failure injection, the dict of the kill times can be made, and it has for each of the two
  -- modes the time of that mode's own kill, also if an event for both modes is given besides.
  pub kill_times-own :
      (args : Args) (kill_no kill_with : ℕ)
      → (str_eq args.kill_event "" ≡ true) ⊎ ((kill_both : ℕ) × Holds args.kill_event kill_both)
      → Holds args.kill_event_no_predetection kill_no
      → Holds args.kill_event_with_predetection kill_with
      → str_eq args.kill_event_no_predetection "" ≡ false
      → str_eq args.kill_event_with_predetection "" ≡ false
      → (times : ByMode ℕ) × (kill_times host args ≡ ok times)
        × (find_mode "no-predetection" times ≡ some kill_no)
        × (find_mode "with-predetection" times ≡ some kill_with)
  unfolding kill_times set_kill_time set_kill_times set_mode find_mode
  kill_times-own args kill_no kill_with both n w named_no named_with =
      let own : ByMode ℕ = ("no-predetection", kill_no) ∷ ("with-predetection", kill_with) ∷ [] in
      let read_no = load_kill_event-Holds args.kill_event_no_predetection kill_no n in
      let read_with = load_kill_event-Holds args.kill_event_with_predetection kill_with w in
      elim both [
        | inl absent ↦ (own, rw (absent, named_no, named_with, read_no, read_with) refl, refl, refl)
        | inr (kill_both, given) ↦
            let read_both = load_kill_event-Holds args.kill_event kill_both given in
            elim (Bool-cases (str_eq args.kill_event "")) [
              | inl absent ↦
                  (own, rw (absent, named_no, named_with, read_no, read_with) refl, refl, refl)
              | inr named ↦ (
                own,
                rw (named, named_no, named_with, read_both, read_no, read_with) refl,
                refl,
                refl,
              )
            ]
      ]
