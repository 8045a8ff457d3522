-- ===== src/Client/Reply/Unwrap.antt =====
-- The return path: every node encrypts what it passes back, and the client takes it all off.
use torr_bsds.Base.{ℕ, ◌≡◌, some, arith}
use torr_bsds.Runtime.Json.{Json, str, ok, as_str}
use torr_bsds.Runtime.Exec.{Trace}
use torr_bsds.Runtime.Env.{Bytes, Env, IsLawful}
use torr_bsds.Client.Aes.{aes_encrypt, aes_decrypt}
use torr_bsds.Client.Aes.Roundtrip.{aes_decrypt-encrypt}
use torr_bsds.Client.Setup.{Keys}
use torr_bsds.Client.Reply.{decrypt_response}

module _ (env : Env) where
  -- A node's `aes_encrypt`, at some moment.
  pub record Encrypts (key plain ct : Bytes) : Type 0 where
    pub before : Trace
    pub after : Trace
    pub run : aes_encrypt env (some key) plain before ≡ (ok ct, after)

  -- The exit encrypts its answer, the relay what the exit sent, the guard what the relay sent.
  pub record IsWrapped (g r e : Bytes) (answer : Json) (payload : Bytes) : Type 0 where
    pub from_exit : Bytes
    pub from_relay : Bytes
    pub at_exit : Encrypts e (env.dumps answer) from_exit
    pub at_relay : Encrypts r from_exit from_relay
    pub at_guard : Encrypts g from_relay payload

module _ (env : Env) (law : IsLawful env) where
  unwrap :
      {key plain ct : Bytes} → Encrypts env key plain ct → aes_decrypt env (some key) ct ≡ ok plain
  unwrap {key} {plain} w = aes_decrypt-encrypt env law key plain w.before w.run

  -- Over lawful packages and for a hop count other than 1, `decrypt_response` with three keys
  -- gives the exit's answer, if each node of the circuit has encrypted it once with its own
  -- key on the way back.
  pub decrypt_response-IsWrapped :
      (g r e : Bytes) (keys : Keys) (answer : Json) (payload : Bytes) (hops : ℕ) (t : Trace)
      → ¬ (hops ≡ 1)
      → keys ≡ record { guard_key = some g; relay_key = some r; exit_key = some e }
      → IsWrapped env g r e answer payload
      → decrypt_response env keys (str (env.b64encode payload)) hops t ≡ (ok answer, t)
  unfolding decrypt_response as_str
  decrypt_response-IsWrapped g r e keys answer payload hops t h k w = ground (
    arith,
    law.b64decode-encode payload,
    unwrap w.at_guard,
    unwrap w.at_relay,
    unwrap w.at_exit,
    law.loads-dumps answer,
  )

  -- Over lawful packages and with one hop, `decrypt_response` gives the answer that the guard
  -- alone has encrypted with its key.
  pub decrypt_response-one_hop :
      (g : Bytes) (keys : Keys) (answer : Json) (payload : Bytes) (t : Trace)
      → keys.guard_key ≡ some g
      → Encrypts env g (env.dumps answer) payload
      → decrypt_response env keys (str (env.b64encode payload)) 1 t ≡ (ok answer, t)
  unfolding decrypt_response as_str
  decrypt_response-one_hop g keys answer payload t k w =
      ground (arith, law.b64decode-encode payload, unwrap w, law.loads-dumps answer)
