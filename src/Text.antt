-- ===== src/Text.antt =====
-- What the program uses of Go's `strings` package, over the bytes of a string.
pub mod Trim
pub mod Lines
pub mod Decimal
pub mod Base64
pub mod Utf8
pub mod Visible
pub mod Parts
pub mod Numbers
pub mod Order
use otherhost.Base.{
  ℕ, zero, suc, ◌+◌, Bool, true, false, ◌&&◌, ◌||◌, List, [], ◌∷◌, ◌++◌, reverse, if◌then◌else◌,
  ◌==◌, ◌≡◌, within, Bytes, any, bytes_eq,
}

unfoldable pub is_ascii_space : ℕ → Bool
is_ascii_space c = within 9 13 c || c == 32

-- U+0085 and U+00A0.
unfoldable pub is_space_2 : ℕ → ℕ → Bool
is_space_2 a b = a == 0xc2 && (b == 0x85 || b == 0xa0)

-- U+1680, U+2000 to U+200A, U+2028, U+2029, U+202F, U+205F and U+3000.
unfoldable pub is_space_3 : ℕ → ℕ → ℕ → Bool
is_space_3 a b c =
    (a == 0xe1 && (b == 0x9a && c == 0x80))
    || ((a == 0xe2
          && (b == 0x80 && (within 0x80 0x8a c || (c == 0xa8 || (c == 0xa9 || c == 0xaf)))))
        || ((a == 0xe2 && (b == 0x81 && c == 0x9f)) || (a == 0xe3 && (b == 0x80 && c == 0x80))))

-- The bytes of the white space that the text begins with, 0 if it begins with none.
unfoldable pub space_width : Bytes → ℕ
unfolding is_ascii_space is_space_2 is_space_3
space_width [] = 0
space_width (a ∷ []) = if is_ascii_space a then 1 else 0
space_width (a ∷ b ∷ []) = if is_ascii_space a then 1 else if is_space_2 a b then 2 else 0
space_width (a ∷ b ∷ c ∷ r) =
    if is_ascii_space a then 1 else if is_space_2 a b then 2 else if is_space_3 a b c then 3 else 0

-- The same at the end of a text, whose bytes come last first.
unfoldable pub space_width_back : Bytes → ℕ
unfolding is_ascii_space is_space_2 is_space_3
space_width_back [] = 0
space_width_back (a ∷ []) = if is_ascii_space a then 1 else 0
space_width_back (b ∷ a ∷ []) = if is_ascii_space b then 1 else if is_space_2 a b then 2 else 0
space_width_back (c ∷ b ∷ a ∷ r) =
    if is_ascii_space c then 1 else if is_space_2 b c then 2 else if is_space_3 a b c then 3 else 0

-- Drops white space from the front; the number counts the bytes left of one that has begun.
unfoldable pub drop_spaces : (Bytes → ℕ) → ℕ → Bytes → Bytes
drop_spaces width k [] = []
drop_spaces width (suc k) (a ∷ r) = drop_spaces width k r
drop_spaces width zero (a ∷ r) = elim (width (a ∷ r)) [
  | zero ↦ a ∷ r
  | suc k ↦ drop_spaces width k r
]

unfoldable pub trim_left : Bytes → Bytes
unfolding drop_spaces space_width
trim_left = drop_spaces space_width 0

unfoldable pub trim_right : Bytes → Bytes
unfolding drop_spaces space_width_back
trim_right s = reverse (drop_spaces space_width_back 0 (reverse s))

-- `strings.TrimSpace`.
unfoldable pub trim_space : Bytes → Bytes
unfolding trim_left trim_right
trim_space s = trim_right (trim_left s)

unfoldable pub contains_byte : Bytes → ℕ → Bool
contains_byte s c = any (λ b. b == c) s

-- `strings.ContainsAny` with a set of ASCII characters.
unfoldable pub contains_any : Bytes → Bytes → Bool
unfolding contains_byte
contains_any s set = any (contains_byte set) s

unfoldable pub has_prefix : Bytes → Bytes → Bool
has_prefix s [] = true
has_prefix [] (p ∷ ps) = false
has_prefix (c ∷ s) (p ∷ ps) = c == p && has_prefix s ps

-- `strings.TrimSuffix` with one byte.
unfoldable pub trim_suffix_byte : ℕ → Bytes → Bytes
trim_suffix_byte x [] = []
trim_suffix_byte x (c ∷ []) = if c == x then [] else c ∷ []
trim_suffix_byte x (c ∷ d ∷ s) = c ∷ trim_suffix_byte x (d ∷ s)

-- A printable ASCII character other than a space.
abbrev pub IsVisible : ℕ → Type 0
IsVisible c = within 33 126 c ≡ true
