-- ===== src/Text/Base64/Url.antt =====
-- Go's `base64.RawURLEncoding.EncodeToString`.
use otherhost.Base.{
  ℕ, ◌+◌, ◌-◌, ◌*◌, ◌/◌, ◌%◌, ◌≡◌, refl, false, [], ◌∷◌, arith, if◌then◌else◌, ltb, ◌==◌, Bytes,
}
use otherhost.Text.{contains_byte}

url_char : ℕ → ℕ
url_char v =
    if ltb v 26
    then v + b'A'
    else if ltb v 52
    then v - 26 + b'a'
    else if ltb v 62
    then v - 52 + b'0'
    else if v == 62
    then b'-'
    else b'_'

unfoldable pub raw_url_encode : Bytes → Bytes
unfolding url_char
raw_url_encode [] = []
raw_url_encode (a ∷ []) = url_char (a / 4) ∷ url_char (a % 4 * 16) ∷ []
raw_url_encode (a ∷ b ∷ []) =
    url_char (a / 4) ∷ url_char (a % 4 * 16 + b / 16) ∷ url_char (b % 16 * 4) ∷ []
raw_url_encode (a ∷ b ∷ c ∷ r) =
    url_char (a / 4)
    ∷ url_char (a % 4 * 16 + b / 16)
    ∷ url_char (b % 16 * 4 + c / 64)
    ∷ url_char (c % 64)
    ∷ raw_url_encode r

url_char-not_slash : (v : ℕ) → (url_char v == 47) ≡ false
unfolding url_char
url_char-not_slash v = ground arith

-- What is encoded has no slash.
pub contains_byte-raw_url_encode : (s : Bytes) → contains_byte (raw_url_encode s) 47 ≡ false
unfolding raw_url_encode contains_byte
contains_byte-raw_url_encode [] = refl
contains_byte-raw_url_encode (a ∷ []) =
    ground (arith, url_char-not_slash (a / 4), url_char-not_slash (a % 4 * 16))
contains_byte-raw_url_encode (a ∷ b ∷ []) = ground (
  arith,
  url_char-not_slash (a / 4),
  url_char-not_slash (a % 4 * 16 + b / 16),
  url_char-not_slash (b % 16 * 4),
)
contains_byte-raw_url_encode (a ∷ b ∷ c ∷ r) = ground (
  arith,
  url_char-not_slash (a / 4),
  url_char-not_slash (a % 4 * 16 + b / 16),
  url_char-not_slash (b % 16 * 4 + c / 64),
  url_char-not_slash (c % 64),
  contains_byte-raw_url_encode r,
)
