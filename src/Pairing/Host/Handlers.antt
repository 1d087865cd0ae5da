-- ===== src/Pairing/Host/Handlers.antt =====
-- internal/pairing/host.go: `handleHello`, `handleConfirm` and `handleCancel`.
use otherhost.Base.{
  ℕ, ◌+◌, ◌-◌, ◌/◌, ◌%◌, ◌^◌, Bool, true, false, not, ◌||◌, [], ◌∷◌, Option, none, some,
  if◌then◌else◌, ltb, ◌==◌, Bytes, bytes_eq, ℤ, pos, negsuc, Result, ok, err, ◌>>=◌, ◌>>◌,
  refuse_if, or_err,
}
use otherhost.Pairing.Crypto.{no_strings, Crypto, Json}
use otherhost.Pairing.Host.{
  PairingHost, HostSession, Outcome, paired, rejected_on_mac, install_failed, host_key_failed,
  seal_failed, client_disconnected, Request, Response, local_post, decode_json_body, finish,
}
use otherhost.Pairing.Keys.{
  SessionKeys, encode, decode, derive_session_keys, comparison_code, seal, open_sealed,
}
use otherhost.Pairing.Messages.{
  result_strings, payload_strings, HelloRequest, HelloResponse, ConfirmRequest, PairPayload,
  PairResult, Fault, protocol_version,
}
use otherhost.Pairing.Names.{clean_device_name}
use otherhost.Pairing.Ssh.{normalize_ed25519_public_key}
use otherhost.Pairing.Transcript.{make_transcript}

-- `if err != nil { http.Error(writer, ..., status) }`
abbrev pub or_status : {A : Type 0} → Result Fault A → ℕ → Result ℕ A
or_status (ok a) status = ok a
or_status (err e) status = err status

-- `hex.EncodeToString`.
hex_digit : ℕ → ℕ
hex_digit n = if ltb n 10 then n + b'0' else n - 10 + b'a'

unfoldable pub hex_encode : Bytes → Bytes
unfolding hex_digit
hex_encode [] = []
hex_encode (c ∷ s) = hex_digit (c / 16) ∷ hex_digit (c % 16) ∷ hex_encode s

unfoldable pub is_version : ℤ → Bool
is_version (pos n) = n == protocol_version
is_version (negsuc n) = false

-- What `handleHello` draws: an X25519 private key, 32 bytes and 16 bytes.
pub record HelloDraws : Type 0 where
  pub private_key : Option Bytes
  pub host_nonce : Option Bytes
  pub session_id : Option Bytes

unfoldable pub current_session : PairingHost → Bytes → Option HostSession
current_session host session_id = elim host.session [
  | none ↦ none
  | some s ↦ if bytes_eq s.id session_id then some s else none
]

-- `host.session != nil`
abbrev pub has_session : Option HostSession → Bool
has_session none = false
has_session (some s) = true

unfoldable pub is_pairing : PairingHost → Bool
is_pairing host = has_session host.session

module _ (crypto : Crypto) where
  open crypto use {public_key}

  -- The checks in front of the lock: the hello with its cleaned name, and the client's key.
  unfoldable pub admit_hello : PairingHost → Request HelloRequest → Result ℕ (HelloRequest × Bytes)
  unfolding is_version
  admit_hello host request = do
    refuse_if (not (local_post request)) 403
    hello ← decode_json_body request
    client_name ← or_status (clean_device_name hello.client_name) 400
    refuse_if (not (is_version hello.version) || not (bytes_eq hello.instance_id host.instance_id))
        400
    client_public_key ← or_status (decode hello.client_public_key 32) 400
    nonce ← or_status (decode hello.client_nonce 32) 400
    ok (record hello { client_name = client_name }, client_public_key)

  unfoldable pub hello_response : PairingHost → Bytes → Bytes → Bytes → HelloResponse
  hello_response host private_key host_nonce session_id = record {
    session_id = session_id;
    host_name = host.options.name;
    host_public_key = encode (public_key private_key);
    host_nonce = encode host_nonce;
    expires_in = pos (host.options.duration / 10 ^ 9);
  }

  -- What stands between `mu.Lock` and `mu.Unlock`.
  unfoldable pub open_session :
      PairingHost → HelloDraws → ℕ → HelloRequest → Bytes → Result ℕ HostSession
  unfolding is_pairing hello_response hex_encode
  open_session host draws now hello client_public_key = do
    refuse_if (is_pairing host) 409
    private_key ← or_err draws.private_key 500
    host_nonce ← or_err draws.host_nonce 500
    id_bytes ← or_err draws.session_id 500
    let response = hello_response host private_key host_nonce (hex_encode id_bytes)
    let transcript = make_transcript host.instance_id hello response
    keys ← or_status (derive_session_keys crypto private_key client_public_key transcript) 400
    ok (record {
      id = hex_encode id_bytes;
      request = hello;
      response = response;
      keys = keys;
      code = comparison_code crypto keys;
      decision = none;
      expires = now + host.options.duration;
    })

  -- The session that a hello opens, or the status of the refusal.
  unfoldable pub answer_hello :
      PairingHost → HelloDraws → ℕ → Request HelloRequest → Result ℕ HostSession
  answer_hello host draws now request = do
    (hello, client_public_key) ← admit_hello host request
    open_session host draws now hello client_public_key

  module _ (payloads : Json PairPayload payload_strings) where
    -- `handleConfirm` up to its `select`: the key to install once the user has answered, and the
    -- session.
    unfoldable pub begin_confirm :
        PairingHost → ℕ → Request ConfirmRequest → Result ℕ (Bytes × HostSession)
    unfolding current_session
    begin_confirm host now request = do
      refuse_if (not (local_post request)) 403
      confirmation ← decode_json_body request
      session ← or_err (current_session host confirmation.session_id) 410
      refuse_if (ltb session.expires now) 410
      payload ←
          or_status
            (open_sealed crypto payloads session.keys.client_to_host session.keys.transcript
              confirmation.nonce confirmation.ciphertext)
            403
      public_key ← or_status (normalize_ed25519_public_key payload.ssh_public_key) 400
      ok (public_key, session)

  module _ (cancellations : Json Bool no_strings) where
    -- `handleCancel`; the payload is its field `cancel`.
    unfoldable pub handle_cancel : PairingHost → Request ConfirmRequest → Result ℕ PairingHost
    unfolding current_session finish
    handle_cancel host request = do
      refuse_if (not (local_post request)) 403
      cancellation ← decode_json_body request
      session ← or_err (current_session host cancellation.session_id) 410
      cancel ←
          or_status
            (open_sealed crypto cancellations session.keys.client_to_host session.keys.transcript
              cancellation.nonce cancellation.ciphertext)
            403
      refuse_if (not cancel) 403
      ok (finish host rejected_on_mac)

-- What the end of `handleConfirm` meets: whether the key is installed, the SSH host key that is read,
-- the nonce drawn by `seal`, whether the answer is written, and the local address of the request.
pub record Completion : Type 0 where
  pub installs : Bool
  pub host_key : Option Bytes
  pub nonce : Option Bytes
  pub writes : Bool
  pub local_address : Bytes

module _ (crypto : Crypto) (results : Json PairResult result_strings) where
  unfoldable pub pair_result : PairingHost → Bytes → Bytes → PairResult
  pair_result host local_address host_key = record {
    otherhost_name = host.options.name;
    host = local_address;
    ssh_user = host.options.ssh_user;
    ssh_port = host.options.ssh_port;
    ssh_host_key = host_key;
  }

  -- `handleConfirm` behind an approval: the outcome that it sends to `done`, and the response.
  unfoldable pub complete_confirm : PairingHost → SessionKeys → Completion → Outcome × Response
  unfolding pair_result
  complete_confirm host keys c = elim c.installs [
    | false ↦ (install_failed, Response.error 500)
    | true ↦ elim c.host_key [
      | none ↦ (host_key_failed, Response.error 500)
      | some host_key ↦
          elim (seal crypto results keys.host_to_client keys.transcript c.nonce
            (pair_result host c.local_address host_key)) [
              | err e ↦ (seal_failed, Response.error 500)
              | ok (nonce, ciphertext) ↦
                  if c.writes
                  then (
                    paired,
                    Response.confirmed (record { nonce = nonce; ciphertext = ciphertext }),
                  )
                  else (client_disconnected, Response.nothing)
            ]
    ]
  ]
