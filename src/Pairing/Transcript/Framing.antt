-- ===== src/Pairing/Transcript/Framing.antt =====
-- A transcript determines every field that was written into it.
use otherhost.Base.{◌%◌, ◌^◌, ◌<◌, List, [], ◌∷◌, ◌++◌, Bytes, length}
use otherhost.Text.Decimal.{itoa}
use otherhost.Pairing.Messages.{HelloRequest, HelloResponse}
use otherhost.Pairing.Transcript.{put_u32}

-- A field fits when its length is a `uint32`.
abbrev pub Fits : Bytes → Type 0
Fits s = length s < 2 ^ 32

frame : Bytes → Bytes
frame s = put_u32 (length s % 2 ^ 32) ++ s

frames : List Bytes → Bytes
frames [] = []
frames (s ∷ ss) = frame s ++ frames ss

abbrev pub fields : Bytes → HelloRequest → HelloResponse → List Bytes
fields instance_id request response =
    instance_id
    ∷ request.client_name
    ∷ response.host_name
    ∷ request.client_public_key
    ∷ response.host_public_key
    ∷ request.client_nonce
    ∷ response.host_nonce
    ∷ response.session_id
    ∷ itoa response.expires_in
    ∷ []
