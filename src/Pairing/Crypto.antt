-- ===== src/Pairing/Crypto.antt =====
-- What the pairing protocol uses of Go's `crypto` and `encoding/json` packages: their operations,
-- with the documented facts that the protocol relies on. Randomness enters as arguments, a draw being
-- `none` where the system's source fails.
use otherhost.Base.{ℕ, ◌<◌, ◌≡◌, Bool, true, List, [], Option, some, Bytes, length, All, all}
use otherhost.Text.Utf8.{valid_utf8}

abbrev pub IsByte : ℕ → Type 0
IsByte b = b < 256

pub record Crypto : Type 0 where
  -- HMAC with SHA-256, of a key and a message
  pub hmac : Bytes → Bytes → Bytes
  pub hmac_size : (key message : Bytes) → length (hmac key message) ≡ 32
  -- SHA-256
  pub sha256 : Bytes → Bytes
  -- X25519: the public half of a private key, whether a peer's key is accepted, and the secret
  -- that a private key shares with a public key
  pub public_key : Bytes → Bytes
  pub public_key_size : (private_key : Bytes) → length (public_key private_key) ≡ 32
  pub public_key_bytes : (private_key : Bytes) → All IsByte (public_key private_key)
  pub accepts_peer : Bytes → Bool
  pub accepts_public_key : (private_key : Bytes) → accepts_peer (public_key private_key) ≡ true
  pub ecdh : Bytes → Bytes → Option Bytes
  pub ecdh_comm : (a b : Bytes) → ecdh a (public_key b) ≡ ecdh b (public_key a)
  -- AES-GCM: the keys that it takes, sealing and opening (key, nonce, text, associated data)
  pub accepts_key : Bytes → Bool
  pub accepts_long_key : (key : Bytes) → length key ≡ 32 → accepts_key key ≡ true
  pub gcm_seal : Bytes → Bytes → Bytes → Bytes → Bytes
  pub gcm_seal_bytes :
      (key nonce text ad : Bytes) → All IsByte text → All IsByte (gcm_seal key nonce text ad)
  pub gcm_open : Bytes → Bytes → Bytes → Bytes → Option Bytes
  pub gcm_open_seal :
      (key nonce text ad : Bytes) → gcm_open key nonce (gcm_seal key nonce text ad) ad ≡ some text

-- A value without strings.
abbrev pub no_strings : Bool → List Bytes
no_strings b = []

-- The JSON form of one type of values, with their strings. encoding/json reads a value back if its strings
-- are valid UTF-8; it replaces what is not.
pub record Json (A : Type 0) (strings : A → List Bytes) : Type 0 where
  pub marshal : A → Option Bytes
  pub unmarshal : Bytes → Option A
  pub marshal_bytes : (a : A) (text : Bytes) → marshal a ≡ some text → All IsByte text
  pub unmarshal_marshal :
      (a : A) (text : Bytes)
      → all valid_utf8 (strings a) ≡ true
      → marshal a ≡ some text
      → unmarshal text ≡ some a
