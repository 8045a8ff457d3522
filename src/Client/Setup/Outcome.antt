-- ===== src/Client/Setup/Outcome.antt =====
-- What `setup_circuit` has done when it returns.
use torr_bsds.Base.{
  if◌then◌else◌, ℕ, String, ◌≡◌, subst, ◌∙◌, ◌≢◌, inl, inr, Option, none, some, List, [], ◌∷◌,
  arith, length, ◌==◌, Bool-cases,
}
use torr_bsds.Runtime.Json.{Json, ok, index}
use torr_bsds.Runtime.Exec.{Trace, drew}
use torr_bsds.Runtime.Env.{Bytes, Env, IsLawful, urandom}
use torr_bsds.Runtime.Returns.{bind_ok, lift_ok}
use torr_bsds.Client.Setup.{
  Keys, Candidate, optional_key, candidates, fresh_keys, setup_nodes, setup_circuit,
}
use torr_bsds.Client.Setup.Delivery.{AllDelivered, setup_nodes-AllDelivered}

-- The nodes that a circuit of so many hops must set up, in the order of the hops.
pub data Hops (circuit : Json) (hops : ℕ) (keys : Keys) (cs : List Candidate) : Type 0 where
  guard_only :
      (guard : Json)
      → hops ≢ 3
      → index circuit "guard" ≡ ok guard
      → cs ≡ (guard, keys.guard_key) ∷ []
      → Hops circuit hops keys cs
  three :
      (guard relay exit : Json)
      → hops ≡ 3
      → index circuit "guard" ≡ ok guard
      → index circuit "relay" ≡ ok relay
      → index circuit "exit" ≡ ok exit
      → cs ≡ (guard, keys.guard_key) ∷ (relay, keys.relay_key) ∷ (exit, keys.exit_key) ∷ []
      → Hops circuit hops keys cs

pub candidates-Hops :
    (circuit : Json) (hops : ℕ) (keys : Keys) (t : Trace) {cs : List Candidate} {u : Trace}
    → candidates circuit hops keys t ≡ (ok cs, u)
    → Hops circuit hops keys cs × (u ≡ t)
unfolding candidates
candidates-Hops circuit hops keys t h = lift_ok (index circuit "guard") _ t h λ guard at_guard h₁.
    elim (Bool-cases (hops == 3)) [
      | inr other ↦
          (guard_only guard (λ e. absurd (ground arith)) at_guard (ground arith), ground arith)
      | inl yes_three ↦
          lift_ok (index circuit "relay") _ t (rw yes_three at h₁) λ relay at_relay h₂.
            lift_ok (index circuit "exit") _ t h₂ λ exit at_exit h₃. (
              three guard relay exit (ground arith) at_guard at_relay at_exit (ground arith),
              ground arith,
            )
    ]

-- The draws of the keys, newest first.
abbrev pub draws : ℕ → Trace → Trace
draws hops t = if hops == 3 then drew 32 ∷ drew 32 ∷ drew 32 ∷ t else drew 32 ∷ t

module _ (env : Env) where
  -- The key is what `os.urandom(32)` gave after this trace.
  abbrev pub IsDraw : Trace → Option Bytes → Type 0
  IsDraw t key = (key ≡ some (env.random_bytes t 32)) × (length (env.random_bytes t 32) ≡ 32)

  -- The session keys of a setup that began after this trace: for each hop the 32 bytes of a draw of
  -- its own, one draw after the other, and `None` for the hops that are not there.
  pub record AreDrawn (t : Trace) (hops : ℕ) (keys : Keys) : Type 0 where
    pub guard : IsDraw t keys.guard_key
    pub relay : hops ≡ 3 → IsDraw (drew 32 ∷ t) keys.relay_key
    pub exit : hops ≡ 3 → IsDraw (drew 32 ∷ drew 32 ∷ t) keys.exit_key
    pub no_relay : hops ≢ 3 → keys.relay_key ≡ none
    pub no_exit : hops ≢ 3 → keys.exit_key ≡ none

  -- The keys are successive draws from some trace on, one for each hop.
  abbrev pub IsFresh : ℕ → Keys → Type 0
  IsFresh hops keys = (t : Trace) × AreDrawn t hops keys

module _ (env : Env) (law : IsLawful env) where
  fresh_keys-AreDrawn :
      (hops : ℕ) (t : Trace) {keys : Keys} {u : Trace}
      → fresh_keys env hops t ≡ (ok keys, u)
      → AreDrawn env t hops keys × (u ≡ draws hops t)
  unfolding fresh_keys optional_key urandom
  fresh_keys-AreDrawn hops t {keys} h =
      let drawn_at : (u : Trace) → length (env.random_bytes u 32) ≡ 32 =
        λ u. law.length-random_bytes u 32 in
      elim (Bool-cases (hops == 3)) [
        | inl is_three ↦
            let e : keys ≡ record {
              guard_key = some (env.random_bytes t 32);
              relay_key = some (env.random_bytes (drew 32 ∷ t) 32);
              exit_key = some (env.random_bytes (drew 32 ∷ drew 32 ∷ t) 32);
            } =
              ground arith in
            (
              record {
                guard = (ground arith, drawn_at t);
                relay = λ _. (ground arith, drawn_at (drew 32 ∷ t));
                exit = λ _. (ground arith, drawn_at (drew 32 ∷ drew 32 ∷ t));
                no_relay = λ ne. absurd (ground arith);
                no_exit = λ ne. absurd (ground arith);
              },
              ground arith,
            )
        | inr other ↦
            let e : keys ≡ record {
              guard_key = some (env.random_bytes t 32);
              relay_key = none;
              exit_key = none;
            } =
              ground arith in
            (
              record {
                guard = (ground arith, drawn_at t);
                relay = λ eq. absurd (ground arith);
                exit = λ eq. absurd (ground arith);
                no_relay = λ ne. ground arith;
                no_exit = λ ne. ground arith;
              },
              ground arith,
            )
      ]

  pub record IsSetUp (circuit : Json) (id : String) (hops : ℕ) (t : Trace) (keys : Keys) (u : Trace)
      : Type 0 where
    pub nodes : List Candidate
    pub fresh : AreDrawn env t hops keys
    pub route : Hops circuit hops keys nodes
    pub delivered : AllDelivered env id nodes (draws hops t) u

  -- Over lawful packages, when `setup_circuit` returns, the key of each hop is the 32 bytes of a
  -- draw of its own, the guard's, then for three hops the relay's and the exit's, and there is no
  -- key for hops that are not there; and it has then sent to the guard, and for three hops to the
  -- relay and the exit after it, one request each, which carries that node's key under that node's
  -- public key and was answered with 204. It did nothing else.
  pub setup_circuit-IsSetUp :
      (circuit : Json) (id : String) (hops : ℕ) (t : Trace) (keys : Keys) (u : Trace)
      → setup_circuit env circuit id hops t ≡ (ok keys, u)
      → IsSetUp circuit id hops t keys u
  unfolding setup_circuit
  setup_circuit-IsSetUp circuit id hops t keys u h =
      bind_ok (fresh_keys env hops) _ t h λ ks v e h₁.
        bind_ok (candidates circuit hops ks) _ v h₁ λ cs w e' h₂.
          bind_ok (setup_nodes env id cs) _ w h₂ λ x y e″ h₃.
            let (fresh, drawn) = fresh_keys-AreDrawn hops t e in
            let (route, same) = candidates-Hops circuit hops ks v e' in
            let at_end : IsSetUp circuit id hops t ks y = record {
              nodes = cs;
              fresh = fresh;
              route = route;
              delivered =
                  subst (λ s. AllDelivered env id cs s y) (same ∙ drawn)
                    (setup_nodes-AllDelivered env id cs w e″);
            } in
            let same_keys : keys ≡ ks = ground arith in
            let same_trace : u ≡ y = ground arith in rw (same_keys, same_trace) at_end
