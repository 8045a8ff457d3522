-- ===== src/Tests/Sample.antt =====
-- A lawful world: a cipher that passes bytes on where the sizes are right, random bytes that are
-- zeros, a directory with one circuit, nodes that take every key, and a guard that answers every
-- onion.
use torr_bsds.Base.{
  ℕ, String, [], ◌++◌, refl, length, replicate, length-replicate, str_eq, if◌then◌else◌,
}
use torr_bsds.Runtime.Json.{Json, null, num, str, obj, end, field, Result, ok}
use torr_bsds.Runtime.Exec.{Request, get, post, Trace}
use torr_bsds.Runtime.Env.{Bytes, Response, Env, IsLawful}
use torr_bsds.Tests.Codec.{dumps, loads, encode, decode, loads-dumps, decode-encode}

abbrev pub nonce : Bytes
nonce = replicate 12 0

abbrev pub key : Bytes
key = replicate 32 0

abbrev pub node_of : String → String → Json
node_of id host = obj (
    field "nodeId" (str id)
      (field "host" (str host) (field "port" (num 80) (field "publicKey" (str "pem") end))))

abbrev pub circuit : Json
circuit = obj (
    field "guard" (node_of "G" "g")
      (field "relay" (node_of "R" "r") (field "exit" (node_of "E" "e") end)))

abbrev pub answer : Json
answer = obj (field "body" (str "hi") end)

-- What comes back through three nodes.
abbrev pub wrapped : Bytes
wrapped = nonce ++ (nonce ++ (nonce ++ dumps answer))

abbrev show : Json → String
show (str s) = s
show _ = "80"

abbrev respond : ℕ → Json → Response
respond status v = record { status_code = status; text = ""; json = ok v }

abbrev http : Trace → Request → Result Response
http t (get url _ _) = ok (respond 200 circuit)
http t (post url _ _) =
    if str_eq url "http://g:80/onion"
    then ok (respond 200 (obj (field "payload" (str (encode wrapped)) end)))
    else ok (respond 204 null)

abbrev pub env : Env
env = record {
  http = http;
  raise_for_status = λ _. ok tt;
  random_bytes = λ _ n. replicate n 0;
  clock = λ t. length t;
  timestamp = λ _. "now";
  uuid = λ _. "id";
  polled = λ _. [];
  gcm_encrypt = λ _ _ plain. ok plain;
  gcm_decrypt = λ _ _ ct. ok ct;
  load_pem_public_key = λ _. ok [];
  oaep_encrypt = λ _ plain. ok plain;
  b64encode = encode;
  b64decode = decode;
  dumps = dumps;
  loads = loads;
  show = show;
  show_exc = λ _. "failed";
}

pub env-IsLawful : IsLawful env
env-IsLawful = record {
  length-random_bytes = λ t n. length-replicate n 0;
  gcm_total = λ k n plain hk hn. (plain, refl);
  gcm_decrypt-encrypt = λ k n plain ct h. cc;
  b64decode-encode = decode-encode;
  loads-dumps = loads-dumps;
}
