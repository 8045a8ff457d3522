-- ===== src/Runtime/Env.antt =====
-- What the clients call outside the repository: the network, the operating system's randomness,
-- clock and UUIDs, and the packages `cryptography`, `base64`, `json` and `requests`. An answer
-- may depend on everything that happened before, so a run over a trace covers every peer.
use torr_bsds.Base.{ℕ, String, List, ◌∷◌, ◌≡◌, length}
use torr_bsds.Runtime.Json.{Json, Exc, Result, ok, num}
use torr_bsds.Runtime.Exec.{Request, sent, drew, read_clock, read_time, made_uuid, Trace, Exec}

abbrev pub Bytes : Type 0
Bytes = List ℕ

-- `requests.Response`: the status, the text, and what `.json()` gives.
pub record Response : Type 0 where
  pub status_code : ℕ
  pub text : String
  pub json : Result Json

pub record Env : Type 0 where
  pub http : Trace → Request → Result Response
  pub raise_for_status : Response → Result (Unit {0})
  pub random_bytes : Trace → ℕ → Bytes
  -- `time.monotonic()`, in microseconds
  pub clock : Trace → ℕ
  -- `time.strftime(…, time.gmtime())`
  pub timestamp : Trace → String
  pub uuid : Trace → String
  -- the healthy IDs that the polls of another thread have found while the last action ran, in the
  -- order of the polls
  pub polled : Trace → List (List String)
  -- `AESGCM(key).encrypt(nonce, data, None)`, and decrypt
  pub gcm_encrypt : Bytes → Bytes → Bytes → Result Bytes
  pub gcm_decrypt : Bytes → Bytes → Bytes → Result Bytes
  -- `load_pem_public_key` of an encoded text, to the key in DER form
  pub load_pem_public_key : String → Result Bytes
  -- `pub.encrypt(key, OAEP(MGF1(SHA256), SHA256))`
  pub oaep_encrypt : Bytes → Bytes → Result Bytes
  pub b64encode : Bytes → String
  pub b64decode : String → Result Bytes
  -- `json.dumps(v, separators=(",", ":")).encode()`
  pub dumps : Json → Bytes
  pub loads : Bytes → Result Json
  -- `str(v)`, as f-strings use it
  pub show : Json → String
  pub show_exc : Exc → String

-- What the packages document: AES-GCM with a 32-byte key and a 12-byte nonce inverts itself, and
-- so do base64 and JSON; `os.urandom(n)` gives n bytes.
pub record IsLawful (env : Env) : Type 0 where
  pub length-random_bytes : (t : Trace) (n : ℕ) → length (env.random_bytes t n) ≡ n
  pub gcm_total :
      (key nonce plain : Bytes)
      → length key ≡ 32
      → length nonce ≡ 12
      → (ct : Bytes) × (env.gcm_encrypt key nonce plain ≡ ok ct)
  pub gcm_decrypt-encrypt :
      (key nonce plain ct : Bytes)
      → env.gcm_encrypt key nonce plain ≡ ok ct
      → env.gcm_decrypt key nonce ct ≡ ok plain
  pub b64decode-encode : (bs : Bytes) → env.b64decode (env.b64encode bs) ≡ ok bs
  pub loads-dumps : (v : Json) → env.loads (env.dumps v) ≡ ok v

module _ (env : Env) where
  unfoldable pub send : Request → Exec Response
  send r t = (env.http t r, sent r ∷ t)

  unfoldable pub urandom : ℕ → Exec Bytes
  urandom n t = (ok (env.random_bytes t n), drew n ∷ t)

  unfoldable pub monotonic : Exec ℕ
  monotonic t = (ok (env.clock t), read_clock ∷ t)

  unfoldable pub strftime : Exec String
  strftime t = (ok (env.timestamp t), read_time ∷ t)

  -- `str(uuid.uuid4())`
  unfoldable pub uuid4 : Exec String
  uuid4 t = (ok (env.uuid t), made_uuid ∷ t)

  -- `f"{n}"` of a number
  abbrev pub show_num : ℕ → String
  show_num n = env.show (num n)
