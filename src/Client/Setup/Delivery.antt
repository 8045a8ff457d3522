-- ===== src/Client/Setup/Delivery.antt =====
-- Which keys are drawn, and which node receives which key in which order.
use torr_bsds.Base.{
  String, ◌<>◌, ◌≡◌, refl, ap, subst, inl, inr, Option, none, some, List, [], ◌∷◌, ◌++◌, arith,
}
use torr_bsds.Runtime.Json.{
  Json, str, obj, end, field, Exc, ok, err, index, as_str, attribute_error,
}
use torr_bsds.Runtime.Exec.{Trace, Request, post, sent, Outcome-cases}
use torr_bsds.Runtime.Returns.{bind_ok, lift_ok, send_ok}
use torr_bsds.Runtime.Env.{Bytes, Env, Response}
use torr_bsds.Client.Aes.{rsa_encrypt_key, require}
use torr_bsds.Client.Directory.{node_url}
use torr_bsds.Client.Setup.{Candidate, send_setup_key, setup_node, setup_nodes}

module _ (env : Env) (circuit_id : String) where
  abbrev pub setup_request : String → Bytes → Request
  setup_request url encrypted =
      post (url <> "/setup")
        (obj (
          field "circuitId" (str circuit_id)
            (field "encryptedKey" (str (env.b64encode encrypted)) end)))
        10

  -- From one trace to the next, the node has received its key, encrypted under its own public
  -- key, by one request that it has answered with 204.
  pub record Delivered (c : Candidate) (t u : Trace) : Type 0 where
    pub url : String
    pub pem : String
    pub pub_key : Bytes
    pub key : Bytes
    pub encrypted : Bytes
    pub resp : Response
    pub at_url : node_url env c.0 t ≡ (ok url, t)
    pub at_key : index c.0 "publicKey" ≡ ok (str pem)
    pub loaded : env.load_pem_public_key pem ≡ ok pub_key
    pub own_key : c.1 ≡ some key
    pub sealed : env.oaep_encrypt pub_key key ≡ ok encrypted
    pub answered : env.http t (setup_request url encrypted) ≡ ok resp
    pub accepted : resp.status_code ≡ 204
    pub after : u ≡ sent (setup_request url encrypted) ∷ t

  -- All of them in order, and nothing else.
  pub data AllDelivered : List Candidate → Trace → Trace → Type 0 where
    done : (t : Trace) → AllDelivered [] t t
    next :
        {c : Candidate} {cs : List Candidate} {t u v : Trace}
        → Delivered c t u
        → AllDelivered cs u v
        → AllDelivered (c ∷ cs) t v

  as_str-ok : (v : Json) (e : Exc) (s : String) → as_str v e ≡ ok s → v ≡ str s
  unfolding as_str
  as_str-ok (str s') e s h = ground arith
  as_str-ok v e s h = cc

  require-ok : (key : Option Bytes) (k : Bytes) → require key ≡ ok k → key ≡ some k
  require-ok none k h = cc
  require-ok (some k') k h = ground arith

  node_url_pure :
      (node : Json) (t : Trace) {url : String} {u : Trace}
      → node_url env node t ≡ (ok url, u)
      → u ≡ t
  unfolding node_url torr_bsds.Client.Directory.address
  node_url_pure node t h = ground arith

  rsa_encrypt_key-ok :
      (p : Json) (key : Option Bytes) (t : Trace) {encrypted : Bytes} {u : Trace} {C : Type 0}
      → rsa_encrypt_key env p key t ≡ (ok encrypted, u)
      → ((pem : String) (pub_key k : Bytes)
          → p ≡ str pem
          → env.load_pem_public_key pem ≡ ok pub_key
          → key ≡ some k
          → env.oaep_encrypt pub_key k ≡ ok encrypted
          → u ≡ t
          → C)
      → C
  unfolding rsa_encrypt_key
  rsa_encrypt_key-ok p key t h K = lift_ok (as_str p attribute_error) _ t h λ pem e₁ h₁.
      lift_ok (env.load_pem_public_key pem) _ t h₁ λ pub_key e₂ h₂.
        lift_ok (require key) _ t h₂ λ k e₃ h₃.
          K pem pub_key k (as_str-ok p attribute_error pem e₁) e₂ (require-ok key k e₃)
            (ground arith) (ground arith)

  setup_node-Delivered :
      (c : Candidate) (t : Trace) {u : Trace}
      → setup_node env circuit_id c t ≡ (ok tt, u)
      → Delivered c t u
  unfolding setup_node send_setup_key
  setup_node-Delivered (node, key) t {u} h = bind_ok (node_url env node) _ t h λ url v at_url h₁.
      lift_ok (index node "publicKey") _ v h₁ λ p at_key h₂.
        bind_ok (rsa_encrypt_key env p key) _ v h₂ λ encrypted w sealing h₃.
          send_ok env (setup_request url encrypted) _ w h₃ λ resp answered h₄.
            rsa_encrypt_key-ok p key v sealing λ pem pub_key k e₁ e₂ e₃ e₄ same.
              let start : v ≡ t = node_url_pure node t at_url in
              record {
                url = url;
                pem = pem;
                pub_key = pub_key;
                key = k;
                encrypted = encrypted;
                resp = resp;
                at_url = ground arith;
                at_key = ground arith;
                loaded = e₂;
                own_key = e₃;
                sealed = e₄;
                answered = ground arith;
                accepted = ground arith;
                after = ground arith;
              }

  pub setup_nodes-AllDelivered :
      (cs : List Candidate) (t : Trace) {u : Trace}
      → setup_nodes env circuit_id cs t ≡ (ok tt, u)
      → AllDelivered cs t u
  unfolding setup_nodes
  setup_nodes-AllDelivered [] t h = subst (λ v. AllDelivered [] t v) (ground arith) (done t)
  setup_nodes-AllDelivered (c ∷ cs) t h =
      bind_ok (setup_node env circuit_id c) _ t h
        λ x v e h₁. next (setup_node-Delivered c t e) (setup_nodes-AllDelivered cs v h₁)

  -- A set-up that raised: some nodes have their keys, the next one failed, and the rest were not
  -- asked.
  pub record Stopped (cs : List Candidate) (t : Trace) (e : Exc) (u : Trace) : Type 0 where
    pub delivered : List Candidate
    pub failed : Candidate
    pub unasked : List Candidate
    pub middle : Trace
    pub split : cs ≡ delivered ++ (failed ∷ unasked)
    pub so_far : AllDelivered delivered t middle
    pub raised : setup_node env circuit_id failed middle ≡ (err e, u)

  -- When the loop over the nodes raises, it has delivered the keys of the nodes before the one
  -- that failed, in order, and has asked none after it.
  pub setup_nodes-Stopped :
      (cs : List Candidate) (t : Trace) {e : Exc} {u : Trace}
      → setup_nodes env circuit_id cs t ≡ (err e, u)
      → Stopped cs t e u
  unfolding setup_nodes
  setup_nodes-Stopped [] t h = cc
  setup_nodes-Stopped (c ∷ cs) t {e} {u} h = elim (Outcome-cases (setup_node env circuit_id c t)) [
    | inl (x, v, ran) ↦
        let s = setup_nodes-Stopped cs v {e = e} {u = u} (ground arith) in
        record {
          delivered = c ∷ s.delivered;
          failed = s.failed;
          unasked = s.unasked;
          middle = s.middle;
          split = ap (λ l. c ∷ l) s.split;
          so_far = next (setup_node-Delivered c t ran) s.so_far;
          raised = s.raised;
        }
    | inr (x, v, failed) ↦ record {
      delivered = [];
      failed = c;
      unasked = cs;
      middle = t;
      split = refl;
      so_far = done t;
      raised = ground arith;
    }
  ]
