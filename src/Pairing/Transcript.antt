-- ===== src/Pairing/Transcript.antt =====
-- internal/pairing/protocol.go: the transcript that both devices hash into their session keys.
pub mod Framing
use otherhost.Base.{ℕ, ◌/◌, ◌%◌, ◌^◌, [], ◌∷◌, ◌++◌, Bytes, length}
use otherhost.Text.Decimal.{itoa}
use otherhost.Pairing.Messages.{HelloRequest, HelloResponse, transcript_label}

-- `binary.Write` of a `uint32`, big end first.
unfoldable pub put_u32 : ℕ → Bytes
put_u32 n = (n / 2 ^ 24 % 256) ∷ (n / 2 ^ 16 % 256) ∷ (n / 2 ^ 8 % 256) ∷ (n % 256) ∷ []

-- The buffer after `writeField`: `uint32(len(value))` wraps around.
unfoldable pub write_field : Bytes → Bytes → Bytes
unfolding put_u32
write_field buffer value = (buffer ++ put_u32 (length value % 2 ^ 32)) ++ value

unfoldable pub make_transcript : Bytes → HelloRequest → HelloResponse → Bytes
make_transcript instance_id request response =
    let b = write_field [] transcript_label in
    let b = write_field b instance_id in
    let b = write_field b request.client_name in
    let b = write_field b response.host_name in
    let b = write_field b request.client_public_key in
    let b = write_field b response.host_public_key in
    let b = write_field b request.client_nonce in
    let b = write_field b response.host_nonce in
    let b = write_field b response.session_id in write_field b (itoa response.expires_in)
