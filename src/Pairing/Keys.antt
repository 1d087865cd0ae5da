-- ===== src/Pairing/Keys.antt =====
-- internal/pairing/protocol.go: session keys, the comparison code, and sealed messages.
pub mod Expand
pub mod Code
pub mod Sealing
use otherhost.Base.{
  ℕ, zero, suc, ◌+◌, ◌-◌, ◌*◌, ◌%◌, ◌^◌, Bool, not, ◌&&◌, List, [], ◌∷◌, ◌++◌, Option, none, some,
  if◌then◌else◌, ltb, ◌==◌, Bytes, length, take, Result, ok, err, ◌>>=◌, ◌>>◌, refuse_if, or_err,
}
use otherhost.Text.Base64.{raw_encode, raw_decode}
use otherhost.Text.Decimal.{itoa_ℕ}
use otherhost.Pairing.Crypto.{Crypto, Json}
use otherhost.Pairing.Messages.{
  Fault, invalid_base64, invalid_length, invalid_peer_key, no_shared_secret, cipher_failed,
  random_failed, not_encodable, not_authenticated, invalid_plaintext, client_to_host_label,
  host_to_client_label, numeric_comparison_label,
}

pub record SessionKeys : Type 0 where
  pub client_to_host : Bytes
  pub host_to_client : Bytes
  pub sas : Bytes
  pub transcript : Bytes

unfoldable pub encode : Bytes → Bytes
encode value = raw_encode value

unfoldable pub decode : Bytes → ℕ → Result Fault Bytes
decode value expected_size = do
  decoded ← or_err (raw_decode value) invalid_base64
  refuse_if (ltb 0 expected_size && not (length decoded == expected_size)) invalid_length
  ok decoded

-- The four bytes that `binary.BigEndian.Uint32` reads.
unfoldable pub get_u32 : Bytes → ℕ
get_u32 (a ∷ b ∷ c ∷ d ∷ _) = a * 2 ^ 24 + b * 2 ^ 16 + c * 2 ^ 8 + d
get_u32 _ = 0

-- The zeros that `%06d` puts in front of a text of so many characters.
unfoldable pub zeros : ℕ → Bytes
zeros zero = []
zeros (suc n) = b'0' ∷ zeros n

module _ (crypto : Crypto) where
  open crypto use {hmac, sha256, accepts_peer, ecdh, accepts_key, gcm_seal, gcm_open}

  -- The loop of `hkdfExpand`. Its counter is a byte; each round adds a block of 32 bytes, so one
  -- round more than the bytes wanted are enough.
  unfoldable pub expand_loop : Bytes → Bytes → ℕ → ℕ → ℕ → Bytes → Bytes → Bytes
  expand_loop prk label wanted zero counter previous result = result
  expand_loop prk label wanted (suc rounds) counter previous result =
      let block = hmac prk (previous ++ (label ++ counter ∷ [])) in
      let more =
        expand_loop prk label wanted rounds ((counter + 1) % 256) block (result ++ block) in
      if ltb (length result) wanted then more else result

  unfoldable pub hkdf_expand : Bytes → Bytes → Bytes → ℕ → Bytes
  unfolding expand_loop
  hkdf_expand secret salt label wanted =
      let prk = hmac salt secret in take wanted (expand_loop prk label wanted (suc wanted) 1 [] [])

  unfoldable pub derive_session_keys : Bytes → Bytes → Bytes → Result Fault SessionKeys
  derive_session_keys private_key peer_public_key transcript = do
    refuse_if (not (accepts_peer peer_public_key)) invalid_peer_key
    shared ← or_err (ecdh private_key peer_public_key) no_shared_secret
    let hash = sha256 transcript
    ok (record {
      client_to_host = hkdf_expand shared hash client_to_host_label 32;
      host_to_client = hkdf_expand shared hash host_to_client_label 32;
      sas = hkdf_expand shared hash numeric_comparison_label 32;
      transcript = hash;
    })

  unfoldable pub comparison_code : SessionKeys → Bytes
  unfolding get_u32 zeros
  comparison_code keys =
      let mac = hmac keys.sas keys.transcript in
      let shown = itoa_ℕ (get_u32 (take 4 mac) % 1_000_000) in zeros (6 - length shown) ++ shown

  module _ {A : Type 0} {strings : A → List Bytes} (json : Json A strings) where
    -- The nonce is drawn by `randomBytes(aead.NonceSize())`.
    unfoldable pub seal : Bytes → Bytes → Option Bytes → A → Result Fault (Bytes × Bytes)
    seal key associated_data nonce_draw value = do
      plaintext ← or_err (json.marshal value) not_encodable
      refuse_if (not (accepts_key key)) cipher_failed
      nonce ← or_err nonce_draw random_failed
      ok (encode nonce, encode (gcm_seal key nonce plaintext associated_data))

    unfoldable pub open_sealed : Bytes → Bytes → Bytes → Bytes → Result Fault A
    open_sealed key associated_data nonce ciphertext = do
      refuse_if (not (accepts_key key)) cipher_failed
      nonce_bytes ← decode nonce 12
      ciphertext_bytes ← decode ciphertext 0
      plaintext ←
          or_err (gcm_open key nonce_bytes ciphertext_bytes associated_data) not_authenticated
      or_err (json.unmarshal plaintext) invalid_plaintext
