-- ===== src/Text/Base64.antt =====
-- Go's `encoding/base64`: `RawStdEncoding` and `StdEncoding`. A decoder skips CR and LF everywhere,
-- and ignores the unused bits of the last character.
pub mod Letters
pub mod Padded
pub mod Url
use otherhost.Base.{
  ℕ, ◌+◌, ◌-◌, ◌*◌, ◌/◌, ◌%◌, ◌<◌, ◌≡◌, refl, false, ◌||◌, [], ◌∷◌, Option, none, some, arith,
  if◌then◌else◌, ltb, ◌==◌, within, Bytes, All,
}

b64_char : ℕ → ℕ
b64_char v =
    if ltb v 26
    then v + b'A'
    else if ltb v 52
    then v - 26 + b'a'
    else if ltb v 62
    then v - 52 + b'0'
    else if v == 62
    then b'+'
    else b'/'

b64_value : ℕ → Option ℕ
b64_value c =
    if within b'A' b'Z' c
    then some (c - b'A')
    else if within b'a' b'z' c
    then some (c - b'a' + 26)
    else if within b'0' b'9' c
    then some (c - b'0' + 52)
    else if c == b'+'
    then some 62
    else if c == b'/'
    then some 63
    else none

b64_value-b64_char : (v : ℕ) → v < 64 → b64_value (b64_char v) ≡ some v
unfolding b64_value b64_char
b64_value-b64_char v h = ground arith

b64_char-not_newline : (v : ℕ) → v < 64 → (b64_char v == 10 || b64_char v == 13) ≡ false
unfolding b64_char
b64_char-not_newline v h = ground arith

-- `RawStdEncoding.EncodeToString`.
unfoldable pub raw_encode : Bytes → Bytes
unfolding b64_char
raw_encode [] = []
raw_encode (a ∷ []) = b64_char (a / 4) ∷ b64_char (a % 4 * 16) ∷ []
raw_encode (a ∷ b ∷ []) =
    b64_char (a / 4) ∷ b64_char (a % 4 * 16 + b / 16) ∷ b64_char (b % 16 * 4) ∷ []
raw_encode (a ∷ b ∷ c ∷ r) =
    b64_char (a / 4)
    ∷ b64_char (a % 4 * 16 + b / 16)
    ∷ b64_char (b % 16 * 4 + c / 64)
    ∷ b64_char (c % 64)
    ∷ raw_encode r

unfoldable pub strip_newlines : Bytes → Bytes
strip_newlines [] = []
strip_newlines (c ∷ s) =
    let rest = strip_newlines s in if c == 10 || c == 13 then rest else c ∷ rest

-- The values of four, three or two characters, as bytes.
quad : Option ℕ → Option ℕ → Option ℕ → Option ℕ → Option Bytes → Option Bytes
quad (some x) (some y) (some z) (some w) (some r) =
    some ((x * 4 + y / 16) ∷ (y % 16 * 16 + z / 4) ∷ (z % 4 * 64 + w) ∷ r)
quad _ _ _ _ _ = none

triple : Option ℕ → Option ℕ → Option ℕ → Option Bytes
triple (some x) (some y) (some z) = some ((x * 4 + y / 16) ∷ (y % 16 * 16 + z / 4) ∷ [])
triple _ _ _ = none

double : Option ℕ → Option ℕ → Option Bytes
double (some x) (some y) = some ((x * 4 + y / 16) ∷ [])
double _ _ = none

raw_quads : Bytes → Option Bytes
raw_quads [] = some []
raw_quads (a ∷ []) = none
raw_quads (a ∷ b ∷ []) = double (b64_value a) (b64_value b)
raw_quads (a ∷ b ∷ c ∷ []) = triple (b64_value a) (b64_value b) (b64_value c)
raw_quads (a ∷ b ∷ c ∷ d ∷ r) =
    quad (b64_value a) (b64_value b) (b64_value c) (b64_value d) (raw_quads r)

-- `RawStdEncoding.DecodeString`.
unfoldable pub raw_decode : Bytes → Option Bytes
unfolding strip_newlines raw_quads quad triple double b64_value
raw_decode s = raw_quads (strip_newlines s)

-- The last four characters may end in `=` or `==`.
std_last : ℕ → ℕ → ℕ → ℕ → Option Bytes
std_last a b c d =
    if d == b'='
    then if c == b'='
      then double (b64_value a) (b64_value b)
      else triple (b64_value a) (b64_value b) (b64_value c)
    else quad (b64_value a) (b64_value b) (b64_value c) (b64_value d) (some [])

std_quads : Bytes → Option Bytes
std_quads [] = some []
std_quads (a ∷ b ∷ c ∷ d ∷ []) = std_last a b c d
std_quads (a ∷ b ∷ c ∷ d ∷ e ∷ r) =
    quad (b64_value a) (b64_value b) (b64_value c) (b64_value d) (std_quads (e ∷ r))
std_quads _ = none

-- `StdEncoding.DecodeString`.
unfoldable pub std_decode : Bytes → Option Bytes
unfolding strip_newlines std_quads std_last quad triple double b64_value
std_decode s = std_quads (strip_newlines s)

strip_newlines-b64_char :
    (v : ℕ) (s : Bytes) → v < 64 → strip_newlines (b64_char v ∷ s) ≡ b64_char v ∷ strip_newlines s
unfolding strip_newlines
strip_newlines-b64_char v s h = rw (b64_char-not_newline v h)

strip_newlines-raw_encode :
    (s : Bytes) → All (λ b. b < 256) s → strip_newlines (raw_encode s) ≡ raw_encode s
unfolding raw_encode
strip_newlines-raw_encode [] h = unfold strip_newlines in refl
strip_newlines-raw_encode (a ∷ []) h = ground (
  arith,
  strip_newlines-b64_char (a / 4) (b64_char (a % 4 * 16) ∷ []),
  strip_newlines-b64_char (a % 4 * 16) [],
  strip_newlines-raw_encode [] tt,
)
strip_newlines-raw_encode (a ∷ b ∷ []) h = ground (
  arith,
  strip_newlines-b64_char (a / 4) (b64_char (a % 4 * 16 + b / 16) ∷ b64_char (b % 16 * 4) ∷ []),
  strip_newlines-b64_char (a % 4 * 16 + b / 16) (b64_char (b % 16 * 4) ∷ []),
  strip_newlines-b64_char (b % 16 * 4) [],
  strip_newlines-raw_encode [] tt,
)
strip_newlines-raw_encode (a ∷ b ∷ c ∷ r) h = ground (
  arith,
  strip_newlines-b64_char (a / 4) (
      b64_char (a % 4 * 16 + b / 16)
      ∷ b64_char (b % 16 * 4 + c / 64)
      ∷ b64_char (c % 64)
      ∷ raw_encode r),
  strip_newlines-b64_char (a % 4 * 16 + b / 16)
      (b64_char (b % 16 * 4 + c / 64) ∷ b64_char (c % 64) ∷ raw_encode r),
  strip_newlines-b64_char (b % 16 * 4 + c / 64) (b64_char (c % 64) ∷ raw_encode r),
  strip_newlines-b64_char (c % 64) (raw_encode r),
  strip_newlines-raw_encode r h.1.1.1,
)

raw_quads-raw_encode : (s : Bytes) → All (λ b. b < 256) s → raw_quads (raw_encode s) ≡ some s
unfolding raw_quads raw_encode quad triple double
raw_quads-raw_encode [] h = refl
raw_quads-raw_encode (a ∷ []) h =
    ground (arith, b64_value-b64_char (a / 4), b64_value-b64_char (a % 4 * 16))
raw_quads-raw_encode (a ∷ b ∷ []) h = ground (
  arith,
  b64_value-b64_char (a / 4),
  b64_value-b64_char (a % 4 * 16 + b / 16),
  b64_value-b64_char (b % 16 * 4),
)
raw_quads-raw_encode (a ∷ b ∷ c ∷ r) h = ground (
  arith,
  b64_value-b64_char (a / 4),
  b64_value-b64_char (a % 4 * 16 + b / 16),
  b64_value-b64_char (b % 16 * 4 + c / 64),
  b64_value-b64_char (c % 64),
  raw_quads-raw_encode r h.1.1.1,
)

pub raw_decode-raw_encode : (s : Bytes) → All (λ b. b < 256) s → raw_decode (raw_encode s) ≡ some s
unfolding raw_decode
raw_decode-raw_encode s h = rw (strip_newlines-raw_encode s h) (raw_quads-raw_encode s h)
