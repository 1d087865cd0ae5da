-- ===== src/Text/Base64/Padded.antt =====
-- `StdEncoding.EncodeToString`: padded to a multiple of four characters.
use otherhost.Base.{
  ℕ, ◌+◌, ◌*◌, ◌/◌, ◌%◌, ◌<◌, ◌≡◌, refl, ap, ◌∙◌, false, true, ◌||◌, [], ◌∷◌, Option, some, arith,
  ◌==◌, within, Bytes, All,
}
use otherhost.Text.Base64.{
  b64_char, b64_value, b64_value-b64_char, double, quad, std_decode, std_last, std_quads,
  strip_newlines, triple,
}

unfoldable pub std_encode : Bytes → Bytes
unfolding b64_char
std_encode [] = []
std_encode (a ∷ []) = b64_char (a / 4) ∷ b64_char (a % 4 * 16) ∷ b'=' ∷ b'=' ∷ []
std_encode (a ∷ b ∷ []) =
    b64_char (a / 4) ∷ b64_char (a % 4 * 16 + b / 16) ∷ b64_char (b % 16 * 4) ∷ b'=' ∷ []
std_encode (a ∷ b ∷ c ∷ r) =
    b64_char (a / 4)
    ∷ b64_char (a % 4 * 16 + b / 16)
    ∷ b64_char (b % 16 * 4 + c / 64)
    ∷ b64_char (c % 64)
    ∷ std_encode r

-- A letter, a digit, `+`, `/` or `=`.
abbrev pub IsBase64 : ℕ → Type 0
IsBase64 c =
    (within b'A' b'Z' c || (within b'a' b'z' c || (within b'/' b'9' c || (c == b'+' || c == b'='))))
    ≡ true

b64_char-IsBase64 : (v : ℕ) → v < 64 → IsBase64 (b64_char v)
unfolding b64_char
b64_char-IsBase64 v h = ground arith

b64_char-not_padding : (v : ℕ) → v < 64 → (b64_char v == b'=') ≡ false
unfolding b64_char
b64_char-not_padding v h = ground arith

pub std_encode-IsBase64 : (s : Bytes) → All (λ b. b < 256) s → All IsBase64 (std_encode s)
unfolding std_encode
std_encode-IsBase64 [] h = tt
std_encode-IsBase64 (a ∷ []) h =
    let i = b64_char-IsBase64 (a / 4) (omega (arith, h.0)) in
    (i, (b64_char-IsBase64 (a % 4 * 16) (omega arith), (refl, (refl, tt))))
std_encode-IsBase64 (a ∷ b ∷ []) h =
    let i = b64_char-IsBase64 (a / 4) (omega (arith, h.0)) in
    let j = b64_char-IsBase64 (a % 4 * 16 + b / 16) (omega (arith, h.1.0)) in
    (i, (j, (b64_char-IsBase64 (b % 16 * 4) (omega arith), (refl, tt))))
std_encode-IsBase64 (a ∷ b ∷ c ∷ r) h =
    let i = b64_char-IsBase64 (a / 4) (omega (arith, h.0)) in
    let j = b64_char-IsBase64 (a % 4 * 16 + b / 16) (omega (arith, h.1.0)) in
    let k = b64_char-IsBase64 (b % 16 * 4 + c / 64) (omega (arith, h.1.1.0)) in
    (i, (j, (k, (b64_char-IsBase64 (c % 64) (omega arith), std_encode-IsBase64 r h.1.1.1))))

IsBase64-newline : (c : ℕ) → IsBase64 c → (c == 10 || c == 13) ≡ false
IsBase64-newline c h = ground arith

strip_newlines-IsBase64 : (s : Bytes) → All IsBase64 s → strip_newlines s ≡ s
unfolding strip_newlines
strip_newlines-IsBase64 [] h = refl
strip_newlines-IsBase64 (c ∷ s) h =
    rw (IsBase64-newline c h.0) (ap (◌∷◌ c) (strip_newlines-IsBase64 s h.1))

std_quads-cons :
    (a b c d : ℕ) (t : Bytes)
    → (d == b'=') ≡ false
    → std_quads (a ∷ b ∷ c ∷ d ∷ t)
      ≡ quad (b64_value a) (b64_value b) (b64_value c) (b64_value d) (std_quads t)
unfolding std_quads std_last
std_quads-cons a b c d [] h = rw h refl
std_quads-cons a b c d (e ∷ t) h = refl

quad-b64_char :
    (a b c : ℕ) (o : Option Bytes) (r : Bytes)
    → a < 256
    → b < 256
    → c < 256
    → o ≡ some r
    → quad
        (b64_value (b64_char (a / 4)))
        (b64_value (b64_char (a % 4 * 16 + b / 16)))
        (b64_value (b64_char (b % 16 * 4 + c / 64)))
        (b64_value (b64_char (c % 64)))
        o
      ≡ some (a ∷ b ∷ c ∷ r)
unfolding quad
quad-b64_char a b c o r ha hb hc e = ground (
  arith,
  b64_value-b64_char (a / 4),
  b64_value-b64_char (a % 4 * 16 + b / 16),
  b64_value-b64_char (b % 16 * 4 + c / 64),
  b64_value-b64_char (c % 64),
)

std_quads-std_encode : (s : Bytes) → All (λ b. b < 256) s → std_quads (std_encode s) ≡ some s
unfolding std_encode
std_quads-std_encode [] h = unfold std_quads in refl
std_quads-std_encode (a ∷ []) h =
    unfold std_quads std_last double in
    ground (arith, b64_value-b64_char (a / 4), b64_value-b64_char (a % 4 * 16))
std_quads-std_encode (a ∷ b ∷ []) h =
    unfold std_quads std_last triple in
    ground (
      arith,
      b64_char-not_padding (b % 16 * 4),
      b64_value-b64_char (a / 4),
      b64_value-b64_char (a % 4 * 16 + b / 16),
      b64_value-b64_char (b % 16 * 4),
    )
std_quads-std_encode (a ∷ b ∷ c ∷ r) h =
    std_quads-cons _ _ _ _ (std_encode r) (b64_char-not_padding (c % 64) (omega arith))
    ∙ quad-b64_char a b c (std_quads (std_encode r)) r (omega (arith, h.0)) (omega (arith, h.1.0))
        (omega (arith, h.1.1.0)) (std_quads-std_encode r h.1.1.1)

-- What is encoded is decoded to the same bytes.
pub std_decode-std_encode : (s : Bytes) → All (λ b. b < 256) s → std_decode (std_encode s) ≡ some s
unfolding std_decode
std_decode-std_encode s h =
    ap std_quads (strip_newlines-IsBase64 (std_encode s) (std_encode-IsBase64 s h))
    ∙ std_quads-std_encode s h
