-- ===== src/Pairing/Keys/Sealing.antt =====
-- Encoded keys and nonces are decoded to what they were, and a sealed message opens to its value.
use otherhost.Base.{
  ℕ, ◌≡◌, refl, true, List, some, arith, Bytes, All, all, length, ok, Option-cases, ◌⊎◌, inl, inr,
}
use otherhost.Text.Utf8.{valid_utf8}
use otherhost.Text.Base64.{raw_decode-raw_encode}
use otherhost.Pairing.Crypto.{Crypto, Json, IsByte}
use otherhost.Pairing.Keys.{encode, decode, seal, open_sealed}

-- `decode` reads bytes back from what `encode` wrote, if it expects as many as there are or any number.
pub decode-encode :
    (value : Bytes) (n : ℕ)
    → All IsByte value
    → (n ≡ 0) ⊎ (length value ≡ n)
    → decode (encode value) n ≡ ok value
unfolding decode encode
decode-encode value n bytes size = ground (arith, raw_decode-raw_encode value bytes)

module _ (crypto : Crypto) {A : Type 0} {strings : A → List Bytes} (json : Json A strings) where
  -- What one device seals, with a nonce of 12 bytes, the other opens under the same key and associated
  -- data to the same value, if the strings of the value are valid UTF-8.
  pub open_sealed-seal :
      (key ad nonce : Bytes) (value : A) {n c : Bytes}
      → All IsByte nonce
      → length nonce ≡ 12
      → all valid_utf8 (strings value) ≡ true
      → seal crypto json key ad (some nonce) value ≡ ok (n, c)
      → open_sealed crypto json key ad n c ≡ ok value
  unfolding seal open_sealed
  open_sealed-seal key ad nonce value {n} {c} bytes size valid h =
      elim (Option-cases (json.marshal value)) [
        | inl failed ↦ absurd (ground arith)
        | inr (text, e) ↦
            let sealed = crypto.gcm_seal key nonce text ad in
            ground (
              arith,
              decode-encode nonce 12 bytes (inr size),
              decode-encode sealed 0
                  (crypto.gcm_seal_bytes key nonce text ad (json.marshal_bytes value text e))
                  (inl refl),
              crypto.gcm_open_seal key nonce text ad,
              json.unmarshal_marshal value text valid e,
            )
      ]
