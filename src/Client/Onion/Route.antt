-- ===== src/Client/Onion/Route.antt =====
-- What each node finds when it takes its layer off the onion.
use torr_bsds.Base.{String, ◌<>◌, ◌≡◌, refl, some, ◌∷◌, length}
use torr_bsds.Runtime.Json.{Json, str, ok, index}
use torr_bsds.Runtime.Exec.{Trace, drew}
use torr_bsds.Runtime.Env.{Bytes, Env, IsLawful}
use torr_bsds.Client.Aes.{aes_decrypt}
use torr_bsds.Client.Aes.Roundtrip.{aes_encrypt_total}
use torr_bsds.Client.Directory.{address}
use torr_bsds.Client.Setup.{Keys}
use torr_bsds.Client.Onion.{layer, build_onion}

module _ (env : Env) where
  -- A guard or a relay with its session key: the text `onion` decrypts to a layer, which names
  -- the next hop and the bytes to forward.
  pub record Peels (key : Bytes) (onion : Bytes) (next_hop : String) (rest : Bytes) : Type 0 where
    pub plain : Bytes
    pub parsed : Json
    pub payload : String
    pub decrypts : aes_decrypt env (some key) onion ≡ ok plain
    pub parses : env.loads plain ≡ ok parsed
    pub names_hop : index parsed "nextHop" ≡ ok (str next_hop)
    pub carries : index parsed "payload" ≡ ok (str payload)
    pub decodes : env.b64decode payload ≡ ok rest

  -- The last node: the text decrypts to the request itself.
  pub record Opens (key : Bytes) (onion : Bytes) (value : Json) : Type 0 where
    pub plain : Bytes
    pub decrypts : aes_decrypt env (some key) onion ≡ ok plain
    pub parses : env.loads plain ≡ ok value

  -- The circuit gives an address for the role.
  pub record HasAddress (circuit : Json) (role : String) (addr : String) : Type 0 where
    pub node : Json
    pub host : Json
    pub port : Json
    pub at_role : index circuit role ≡ ok node
    pub at_host : index node "host" ≡ ok host
    pub at_port : index node "port" ≡ ok port
    pub reads : addr ≡ env.show host <> ":" <> env.show port

  -- An onion that the three nodes can route, each with its own key.
  pub record IsOnion (guard_key relay_key exit_key onion : Bytes) (relay_addr exit_addr : String)
      (exit_layer : Json) : Type 0 where
    pub to_relay : Bytes
    pub to_exit : Bytes
    pub guard_peels : Peels guard_key onion relay_addr to_relay
    pub relay_peels : Peels relay_key to_relay exit_addr to_exit
    pub exit_opens : Opens exit_key to_exit exit_layer

module _ (env : Env) (law : IsLawful env) where
  open law use {b64decode-encode, loads-dumps}

  pub layer-Peels :
      (key : Bytes) (hop : String) (ct onion : Bytes)
      → aes_decrypt env (some key) onion ≡ ok (env.dumps (layer env hop ct))
      → Peels env key onion hop ct
  unfolding index
  layer-Peels key hop ct onion h = record {
    plain = env.dumps (layer env hop ct);
    parsed = layer env hop ct;
    payload = env.b64encode ct;
    decrypts = h;
    parses = loads-dumps (layer env hop ct);
    names_hop = refl;
    carries = refl;
    decodes = b64decode-encode ct;
  }

  pub value-Opens :
      (key : Bytes) (value : Json) (onion : Bytes)
      → aes_decrypt env (some key) onion ≡ ok (env.dumps value)
      → Opens env key onion value
  value-Opens key value onion h = record {
    plain = env.dumps value;
    decrypts = h;
    parses = loads-dumps value;
  }

  -- Over lawful packages and with a guard key of 32 bytes, the onion of a one-hop circuit is
  -- the request under the guard's key alone, with one nonce drawn.
  pub build_onion-one_hop :
      (key : Bytes) (keys : Keys) (exit_layer circuit : Json) (t : Trace)
      → keys.guard_key ≡ some key
      → length key ≡ 32
      → (onion : Bytes) × (build_onion env keys exit_layer circuit 1 t ≡ (ok onion, drew 12 ∷ t))
        × Opens env key onion exit_layer
  unfolding build_onion
  build_onion-one_hop key keys exit_layer circuit t e h =
      let (onion, run, back) = aes_encrypt_total env law key (env.dumps exit_layer) t h in
      (onion, rw e run, value-Opens key exit_layer onion back)

  pub address-HasAddress :
      (circuit : Json) (role addr : String) (t : Trace) (a : HasAddress env circuit role addr)
      → address env a.node t ≡ (ok addr, t)
  unfolding address
  address-HasAddress circuit role addr t a = rw (a.at_host, a.at_port, a.reads)

  -- Over lawful packages, with three keys of 32 bytes and the addresses of the relay and the
  -- exit, `build_onion` returns an onion of which each node can take off its own layer: the
  -- guard finds the relay's address, the relay the exit's, and the exit the request. It draws
  -- three nonces and does nothing else.
  pub build_onion-IsOnion :
      (g r e : Bytes) (keys : Keys) (exit_layer circuit : Json) (relay_addr exit_addr : String)
      (t : Trace)
      → keys ≡ record { guard_key = some g; relay_key = some r; exit_key = some e }
      → length g ≡ 32
      → length r ≡ 32
      → length e ≡ 32
      → HasAddress env circuit "relay" relay_addr
      → HasAddress env circuit "exit" exit_addr
      → (onion : Bytes) × (build_onion env keys exit_layer circuit 3 t
          ≡ (ok onion, drew 12 ∷ drew 12 ∷ drew 12 ∷ t))
        × IsOnion env g r e onion relay_addr exit_addr exit_layer
  unfolding build_onion
  build_onion-IsOnion g r e keys exit_layer circuit relay_addr exit_addr t k hg hr he relay exit =
      let (c₁, run₁, back₁) = aes_encrypt_total env law e (env.dumps exit_layer) t he in
      let (c₂, run₂, back₂) =
        aes_encrypt_total env law r (env.dumps (layer env exit_addr c₁)) (drew 12 ∷ t) hr in
      let (c₃, run₃, back₃) =
        aes_encrypt_total env law g (env.dumps (layer env relay_addr c₂)) (drew 12 ∷ drew 12 ∷ t)
          hg in
      (
        c₃,
        rw
            (
              k,
              run₁,
              relay.at_role,
              exit.at_role,
              address-HasAddress circuit "exit" exit_addr (drew 12 ∷ t) exit,
              address-HasAddress circuit "relay" relay_addr (drew 12 ∷ t) relay,
              run₂,
            )
            run₃,
        record {
          to_relay = c₂;
          to_exit = c₁;
          guard_peels = layer-Peels g relay_addr c₂ c₃ back₃;
          relay_peels = layer-Peels r exit_addr c₁ c₂ back₂;
          exit_opens = value-Opens e exit_layer c₁ back₁;
        },
      )
