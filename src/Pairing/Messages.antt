-- ===== src/Pairing/Messages.antt =====
-- internal/pairing/protocol.go: the wire messages and constants, and the errors of the package.
use otherhost.Base.{ℕ, ◌*◌, ℤ, List, [], ◌∷◌, Bytes, codes}

abbrev pub protocol_version : ℕ
protocol_version = 1

abbrev pub max_message_size : ℕ
max_message_size = 16 * 1024

abbrev pub transcript_label : Bytes
transcript_label = codes "devbox-bridge-pairing-v1"

abbrev pub client_to_host_label : Bytes
client_to_host_label = codes "devbox-bridge/client-to-host/v1"

abbrev pub host_to_client_label : Bytes
host_to_client_label = codes "devbox-bridge/host-to-client/v1"

abbrev pub numeric_comparison_label : Bytes
numeric_comparison_label = codes "devbox-bridge/numeric-comparison/v1"

pub record HelloRequest : Type 0 where
  pub version : ℤ
  pub instance_id : Bytes
  pub client_name : Bytes
  pub client_public_key : Bytes
  pub client_nonce : Bytes

pub record HelloResponse : Type 0 where
  pub session_id : Bytes
  pub host_name : Bytes
  pub host_public_key : Bytes
  pub host_nonce : Bytes
  pub expires_in : ℤ

pub record ConfirmRequest : Type 0 where
  pub session_id : Bytes
  pub nonce : Bytes
  pub ciphertext : Bytes

pub record ConfirmResponse : Type 0 where
  pub nonce : Bytes
  pub ciphertext : Bytes

pub record PairPayload : Type 0 where
  pub ssh_public_key : Bytes

-- The strings of a payload, and of a result.
abbrev pub payload_strings : PairPayload → List Bytes
payload_strings p = p.ssh_public_key ∷ []

pub record PairResult : Type 0 where
  pub otherhost_name : Bytes
  pub host : Bytes
  pub ssh_user : Bytes
  pub ssh_port : ℤ
  pub ssh_host_key : Bytes

abbrev pub result_strings : PairResult → List Bytes
result_strings r = r.otherhost_name ∷ r.host ∷ r.ssh_user ∷ r.ssh_host_key ∷ []

-- The errors that the package makes, one for each message.
pub data Fault : Type 0 where
  name_length name_characters : Fault
  invalid_base64 invalid_length : Fault
  invalid_peer_key no_shared_secret : Fault
  cipher_failed random_failed not_encodable : Fault
  not_authenticated invalid_plaintext : Fault
  key_lines key_kind key_base64 key_algorithm key_malformed : Fault
  invalid_ssh_port : Fault
  no_install_target no_host_key_source : Fault
  invalid_ssh_user invalid_network_port invalid_duration no_confirmation no_distribution : Fault
  invalid_instance : Fault
