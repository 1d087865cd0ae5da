-- ===== src/Pairing/Client.antt =====
-- internal/pairing/client.go: `Pair`, split where it exchanges a message with the host. The random draws,
-- the host's answers and the parser of addresses are arguments.
pub mod Agreement
pub mod Trust
use otherhost.Base.{
  ℕ, Bool, true, false, not, ◌&&◌, ◌||◌, Option, none, some, if◌then◌else◌, ltb, leb, Bytes,
  bytes_eq, length, ℤ, pos, negsuc, Result, ok, err, ◌>>=◌, ◌>>◌, refuse_if, or_err,
}
use otherhost.Pairing.Crypto.{no_strings, Crypto, Json}
use otherhost.Pairing.Discovery.{Device}
use otherhost.Pairing.Keys.{
  SessionKeys, comparison_code, decode, derive_session_keys, encode, open_sealed, seal,
}
use otherhost.Pairing.Local.{Ip, ip4, ip6, is_local_network_ip, no_ip}
use otherhost.Pairing.Messages.{
  result_strings, payload_strings, ConfirmRequest, ConfirmResponse, Fault, HelloRequest,
  HelloResponse, PairPayload, PairResult, random_failed,
}
use otherhost.Pairing.Names.{clean_device_name, is_empty, valid_identifier, valid_port}
use otherhost.Pairing.Ssh.{normalize_ed25519_public_key}
use otherhost.Pairing.Transcript.{make_transcript}

pub record ClientOptions : Type 0 where
  pub device : Device
  pub client_name : Bytes
  pub ssh_public_key : Bytes
  pub has_confirm : Bool

-- The errors that `Pair` makes, and those it passes on.
pub data ClientFault : Type 0 where
  passed_on : Fault → ClientFault
  invalid_device no_callback key_not_drawn : ClientFault
  identity_changed invalid_session invalid_expiry invalid_key invalid_nonce : ClientFault
  invalid_name invalid_address invalid_user invalid_port invalid_ssh_key : ClientFault

-- `if err != nil { return ClientResult{}, err }`, and the same with an error of its own.
abbrev pub pass_on : {A : Type 0} → Result Fault A → Result ClientFault A
pass_on (ok a) = ok a
pass_on (err fault) = err (passed_on fault)

abbrev pub or_fault : {A : Type 0} → Result Fault A → ClientFault → Result ClientFault A
or_fault (ok a) other = ok a
or_fault (err fault) other = err other

unfoldable pub is_no_ip : Ip → Bool
is_no_ip no_ip = true
is_no_ip (ip4 a b c d) = false
is_no_ip (ip6 a b c d e f g h) = false

-- What a client keeps while its hello is answered.
pub record Greeting : Type 0 where
  pub hello : HelloRequest
  pub host_name : Bytes
  pub private_key : Bytes
  pub public_key : Bytes

unfoldable pub valid_expiry : ℤ → Bool
valid_expiry (pos n) = leb 10 n && leb n 600
valid_expiry (negsuc n) = false

pub record ClientSession : Type 0 where
  pub response : HelloResponse
  pub keys : SessionKeys
  pub code : Bytes

module _ (crypto : Crypto) where
  -- `Pair` up to its hello, with a drawn X25519 key and 32 drawn bytes.
  unfoldable pub greet : ClientOptions → Option Bytes → Option Bytes → Result ClientFault Greeting
  greet o key_draw nonce_draw = do
    client_name ← pass_on (clean_device_name o.client_name)
    host_name ← pass_on (clean_device_name o.device.name)
    refuse_if
        (is_empty o.device.instance_id
          || (is_no_ip o.device.address || not (valid_port o.device.port)))
        invalid_device
    refuse_if (not o.has_confirm) no_callback
    ssh_key ← pass_on (normalize_ed25519_public_key o.ssh_public_key)
    private_key ← or_err key_draw key_not_drawn
    nonce ← or_err nonce_draw (passed_on random_failed)
    ok (record {
      hello = record {
        version = pos 1;
        instance_id = o.device.instance_id;
        client_name = client_name;
        client_public_key = encode (crypto.public_key private_key);
        client_nonce = encode nonce;
      };
      host_name = host_name;
      private_key = private_key;
      public_key = ssh_key;
    })

  -- `Pair` from the answer to its hello up to the question to the user.
  unfoldable pub accept_hello : Greeting → HelloResponse → Result ClientFault ClientSession
  accept_hello g response = do
    name ← or_fault (clean_device_name response.host_name) identity_changed
    refuse_if (not (bytes_eq name g.host_name)) identity_changed
    refuse_if (is_empty response.session_id || ltb 64 (length response.session_id)) invalid_session
    refuse_if (not (valid_expiry response.expires_in)) invalid_expiry
    host_public_key ← or_fault (decode response.host_public_key 32) invalid_key
    host_nonce ← or_fault (decode response.host_nonce 32) invalid_nonce
    let transcript = make_transcript g.hello.instance_id g.hello response
    keys ← pass_on (derive_session_keys crypto g.private_key host_public_key transcript)
    ok (record { response = response; keys = keys; code = comparison_code crypto keys })

  -- `Pair` behind the approval of the user, up to the confirmation that it sends.
  unfoldable pub confirm_pairing :
      Json PairPayload payload_strings
      → Greeting
      → ClientSession
      → Option Bytes
      → Result ClientFault ConfirmRequest
  confirm_pairing payloads g s nonce_draw = do
    (nonce, ciphertext) ← pass_on (
        seal crypto payloads s.keys.client_to_host s.keys.transcript nonce_draw
          (record { ssh_public_key = g.public_key }))
    ok (record { session_id = s.response.session_id; nonce = nonce; ciphertext = ciphertext })

  -- `Pair` behind a rejection: the cancellation that it sends, if it can be sealed. A payload is its field
  -- `cancel`.
  unfoldable pub cancel_pairing :
      Json Bool no_strings → ClientSession → Option Bytes → Option ConfirmRequest
  cancel_pairing cancellations s nonce_draw =
      elim (seal crypto cancellations s.keys.client_to_host s.keys.transcript nonce_draw true) [
        | err fault ↦ none
        | ok (nonce, ciphertext) ↦
            some (record {
              session_id = s.response.session_id;
              nonce = nonce;
              ciphertext = ciphertext;
            })
      ]

  module _ (results : Json PairResult result_strings) (parse_ip : Bytes → Ip) where
    -- `Pair` behind the answer to its confirmation.
    unfoldable pub accept_result : ClientSession → ConfirmResponse → Result ClientFault PairResult
    accept_result s confirmation = do
      result ← pass_on (
          open_sealed crypto results s.keys.host_to_client s.keys.transcript confirmation.nonce
            confirmation.ciphertext)
      name ← or_fault (clean_device_name result.otherhost_name) invalid_name
      refuse_if (not (bytes_eq result.otherhost_name s.response.host_name)) invalid_name
      refuse_if
          (is_no_ip (parse_ip result.host) || not (is_local_network_ip (parse_ip result.host)))
          invalid_address
      refuse_if (not (valid_identifier result.ssh_user)) invalid_user
      refuse_if (not (valid_port result.ssh_port)) invalid_port
      host_key ← or_fault (normalize_ed25519_public_key result.ssh_host_key) invalid_ssh_key
      ok (record result { ssh_host_key = host_key })
