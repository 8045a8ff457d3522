-- ===== src/Tests/Client.antt =====
-- The client's theorems in the sample world.
use torr_bsds.Base.{ℕ, ◌<◌, String, Option, none, some, [], ◌∷◌, ◌++◌, ◌≡◌, refl, ◌⊎◌, ◌↔◌, arith}
use torr_bsds.Runtime.Json.{
  Json, str, num, obj, end, field, Exc, type_error, ok, err, index, get_or, truthy, lookup, as_str,
}
use torr_bsds.Runtime.Exec.{Trace, sent, drew, post, read_clock}
use torr_bsds.Runtime.Env.{Bytes, Response, urandom, send}
use torr_bsds.Client.Aes.{aes_encrypt, rsa_encrypt_key}
use torr_bsds.Client.Directory.{
  has_node_id, has_relay_and_exit, check_circuit, get_circuit, address, node_url,
}
use torr_bsds.Client.Directory.Checked.{IsUsable, circuit_request, get_circuit_iff}
use torr_bsds.Client.Setup.{
  Keys, candidates, text_prefix, status_error, send_setup_key, setup_node, setup_nodes,
  optional_key, fresh_keys, setup_circuit,
}
use torr_bsds.Client.Setup.Delivery.{Stopped, setup_nodes-Stopped}
use torr_bsds.Client.Setup.Outcome.{IsSetUp, setup_circuit-IsSetUp}
use torr_bsds.Client.Onion.{build_onion}
use torr_bsds.Client.Onion.Route.{HasAddress, IsOnion, build_onion-IsOnion}
use torr_bsds.Client.Reply.{decrypt_response}
use torr_bsds.Client.Reply.Unwrap.{Encrypts, IsWrapped, decrypt_response-IsWrapped}
use torr_bsds.Client.Execute.{CircuitRun, try_circuit, execute_circuit}
use torr_bsds.Client.Execute.Retry.{Fails, exhausted, execute_circuit_attempts}
use torr_bsds.Client.Execute.Hops.{execute_circuit_unsupported}
use torr_bsds.Client.Execute.EndToEnd.{IsServed, try_circuit-IsServed}
use torr_bsds.Tests.Codec.{dumps, encode}
use torr_bsds.Tests.Sample.{env, env-IsLawful, nonce, key, circuit, node_of, answer, wrapped}

abbrev keys : Keys
keys = record { guard_key = some key; relay_key = some key; exit_key = some key }

abbrev request : Json
request = obj (field "url" (str "http://echo") end)

encrypts : (plain : Bytes) → Encrypts env key plain (nonce ++ plain)
unfolding aes_encrypt
encrypts plain = record { before = []; after = drew 12 ∷ []; run = refl }

answer-IsWrapped : IsWrapped env key key key answer wrapped
answer-IsWrapped = record {
  from_exit = nonce ++ dumps answer;
  from_relay = nonce ++ (nonce ++ dumps answer);
  at_exit = encrypts (dumps answer);
  at_relay = encrypts (nonce ++ dumps answer);
  at_guard = encrypts (nonce ++ (nonce ++ dumps answer));
}

guard-HasAddress : HasAddress env circuit "guard" "g:80"
unfolding index
guard-HasAddress = record {
  node = node_of "G" "g";
  host = str "g";
  port = num 80;
  at_role = refl;
  at_host = refl;
  at_port = refl;
  reads = refl;
}

relay-HasAddress : HasAddress env circuit "relay" "r:80"
unfolding index
relay-HasAddress = record {
  node = node_of "R" "r";
  host = str "r";
  port = num 80;
  at_role = refl;
  at_host = refl;
  at_port = refl;
  reads = refl;
}

exit-HasAddress : HasAddress env circuit "exit" "e:80"
unfolding index
exit-HasAddress = record {
  node = node_of "E" "e";
  host = str "e";
  port = num 80;
  at_role = refl;
  at_host = refl;
  at_port = refl;
  reads = refl;
}

ciphertext : aes_encrypt env (some key) (5 ∷ []) [] ≡ (ok (nonce ++ (5 ∷ [])), drew 12 ∷ [])
unfolding aes_encrypt urandom
ciphertext = refl

-- the cipher wants a key, so the second node's lack of one stops the setup
stopped : setup_nodes env "id" ((node_of "G" "g", some key) ∷ (node_of "R" "r", none) ∷ []) [] ≡ (
  err type_error,
  sent (
        post "http://g:80/setup"
          (obj (field "circuitId" (str "id") (field "encryptedKey" (str (encode key)) end)))
          10)
      ∷ [],
)
unfolding setup_nodes setup_node node_url address send_setup_key rsa_encrypt_key index as_str send
    status_error text_prefix
stopped = refl

setup_nodes-Stopped_example :
    Stopped env "id" ((node_of "G" "g", some key) ∷ (node_of "R" "r", none) ∷ []) [] type_error (
      sent (
        post "http://g:80/setup"
          (obj (field "circuitId" (str "id") (field "encryptedKey" (str (encode key)) end)))
          10)
      ∷ [])
setup_nodes-Stopped_example =
    setup_nodes-Stopped env "id" ((node_of "G" "g", some key) ∷ (node_of "R" "r", none) ∷ []) []
      stopped

get_circuit_iff_example :
    (get_circuit env "http://d" 3 [] ≡ (ok circuit, sent (circuit_request env "http://d" 3) ∷ []))
    ↔ ((resp : Response) × (env.http [] (circuit_request env "http://d" 3) ≡ ok resp)
        × (env.raise_for_status resp ≡ ok tt)
        × (resp.json ≡ ok circuit)
        × IsUsable circuit 3
        × (sent (circuit_request env "http://d" 3) ∷ []
            ≡ sent (circuit_request env "http://d" 3) ∷ []))
get_circuit_iff_example =
    get_circuit_iff env "http://d" 3 [] circuit (sent (circuit_request env "http://d" 3) ∷ [])

abbrev setup_event : String → Trace → Trace
setup_event url t =
    sent (
      post url (obj (field "circuitId" (str "id") (field "encryptedKey" (str (encode key)) end)))
        10)
    ∷ t

-- The trace of a setup over three hops.
abbrev set_up_after : Trace → Trace
set_up_after t = setup_event "http://e:80/setup" (
    setup_event "http://r:80/setup"
      (setup_event "http://g:80/setup" (drew 32 ∷ drew 32 ∷ drew 32 ∷ t)))

set_up : (t : Trace) → setup_circuit env circuit "id" 3 t ≡ (ok keys, set_up_after t)
unfolding setup_circuit fresh_keys optional_key candidates setup_nodes setup_node node_url address
    send_setup_key rsa_encrypt_key index as_str send urandom status_error text_prefix
set_up t = refl

setup_circuit-IsSetUp_example : IsSetUp env env-IsLawful circuit "id" 3 [] keys (set_up_after [])
setup_circuit-IsSetUp_example =
    setup_circuit-IsSetUp env env-IsLawful circuit "id" 3 [] keys (set_up_after []) (set_up [])

build_onion-IsOnion_example :
    (onion : Bytes) × (build_onion env keys request circuit 3 []
      ≡ (ok onion, drew 12 ∷ drew 12 ∷ drew 12 ∷ []))
    × IsOnion env key key key onion "r:80" "e:80" request
build_onion-IsOnion_example =
    build_onion-IsOnion env env-IsLawful key key key keys request circuit "r:80" "e:80" [] refl refl
      refl refl relay-HasAddress exit-HasAddress

not_one : ¬ (◌≡◌ {A = ℕ} 3 1)
not_one h = omega arith

not_two : ¬ (◌≡◌ {A = ℕ} 2 1)
not_two h = omega arith

not_three : ¬ (◌≡◌ {A = ℕ} 2 3)
not_three h = omega arith

decrypt_response-IsWrapped_example :
    decrypt_response env keys (str (encode wrapped)) 3 [] ≡ (ok answer, [])
decrypt_response-IsWrapped_example =
    decrypt_response-IsWrapped env env-IsLawful key key key keys answer wrapped 3 [] not_one refl
      answer-IsWrapped

abbrev looked_up : Trace
looked_up = sent (circuit_request env "http://d" 3) ∷ []

looks_up : get_circuit env "http://d" 3 [] ≡ (ok circuit, looked_up)
unfolding get_circuit check_circuit has_node_id has_relay_and_exit send get_or truthy lookup
looks_up = refl

served : IsServed env "http://d" "id" request answer []
served = record {
  circuit = circuit;
  after_lookup = looked_up;
  g = key;
  r = key;
  e = key;
  after_setup = set_up_after (read_clock ∷ looked_up);
  guard_addr = "g:80";
  relay_addr = "r:80";
  exit_addr = "e:80";
  looked_up = looks_up;
  set_up = set_up (read_clock ∷ looked_up);
  length-g = refl;
  length-r = refl;
  length-e = refl;
  guard_at = guard-HasAddress;
  relay_at = relay-HasAddress;
  exit_at = exit-HasAddress;
  serves = λ onion u routes. (
    record {
      status_code = 200;
      text = "";
      json = ok (obj (field "payload" (str (encode wrapped)) end));
    },
    wrapped,
    refl,
    refl,
    refl,
    answer-IsWrapped,
  );
}

try_circuit-IsServed_example :
    (run : CircuitRun) × (u : Trace) × (try_circuit env "http://d" "id" request 3 [] ≡ (ok run, u))
    × (run.response ≡ answer)
try_circuit-IsServed_example =
    try_circuit-IsServed env env-IsLawful "http://d" "id" request answer [] served

execute_circuit_attempts_example :
    ((k : ℕ) × (last : Option Exc) × (u : Trace) × (run : CircuitRun) × (v : Trace) × (k < 3)
      × Fails (try_circuit env "http://d" "id" request 3) k none [] last u
      × (try_circuit env "http://d" "id" request 3 u ≡ (ok run, v))
      × (execute_circuit env "http://d" "id" request 3 [] ≡ (ok run, v)))
    ⊎ ((last : Option Exc) × (u : Trace) × Fails
          (try_circuit env "http://d" "id" request 3)
          3
          none
          []
          last
          u
        × (execute_circuit env "http://d" "id" request 3 [] ≡ (err (exhausted env last), u)))
execute_circuit_attempts_example = execute_circuit_attempts env "http://d" "id" request 3 []

execute_circuit_unsupported_example :
    (last : Option Exc) × (u : Trace) × Fails
      (try_circuit env "http://d" "id" request 2)
      3
      none
      []
      last
      u
    × (execute_circuit env "http://d" "id" request 2 [] ≡ (err (exhausted env last), u))
execute_circuit_unsupported_example =
    execute_circuit_unsupported env env-IsLawful "http://d" "id" request 2 [] not_two not_three
