-- ===== src/Pairing/Names.antt =====
-- internal/pairing/{protocol,ssh,config}.go: the checks on names, identifiers, hosts and ports.
-- The source walks the runes of a string, the model its bytes: a rune outside ASCII, or a byte that
-- is no rune, is in none of the sets of allowed characters, and neither is any byte from 128 on.
pub mod Sound
use otherhost.Base.{
  ℕ, Bool, true, false, not, ◌&&◌, ◌||◌, [], ◌∷◌, Bytes, codes, within, ltb, leb, if◌then◌else◌,
  length, all, any, Result, ok, err, ℤ, pos, negsuc,
}
use otherhost.Text.{trim_space, contains_byte}
use otherhost.Pairing.Messages.{Fault, name_length, name_characters}

unfoldable pub is_empty : Bytes → Bool
is_empty [] = true
is_empty (c ∷ s) = false

unfoldable pub is_alphanumeric : ℕ → Bool
is_alphanumeric c = within b'a' b'z' c || (within b'A' b'Z' c || within b'0' b'9' c)

abbrev pub name_punctuation : Bytes
name_punctuation = codes "._ -"

abbrev pub identifier_punctuation : Bytes
identifier_punctuation = codes "._-"

abbrev pub host_punctuation : Bytes
host_punctuation = codes ".:-"

-- A letter, a digit or a character of the set.
unfoldable pub is_allowed : Bytes → ℕ → Bool
unfolding is_alphanumeric contains_byte
is_allowed set c = is_alphanumeric c || contains_byte set c

unfoldable pub clean_device_name : Bytes → Result Fault Bytes
unfolding is_empty
clean_device_name value =
    let trimmed = trim_space value in
    if is_empty trimmed || ltb 64 (length trimmed)
    then err name_length
    else if all (is_allowed name_punctuation) trimmed
    then ok trimmed
    else err name_characters

unfoldable pub valid_identifier : Bytes → Bool
unfolding is_empty
valid_identifier value =
    not (is_empty value || ltb 64 (length value)) && all (is_allowed identifier_punctuation) value

unfoldable pub valid_distro_name : Bytes → Bool
unfolding is_empty
valid_distro_name value =
    not (is_empty value || ltb 64 (length value)) && all (is_allowed name_punctuation) value

unfoldable pub net_host_invalid : Bytes → Bool
unfolding is_empty
net_host_invalid value = is_empty value || not (all (is_allowed host_punctuation) value)

unfoldable pub valid_port : ℤ → Bool
valid_port (pos port) = ltb 0 port && leb port 65535
valid_port (negsuc n) = false
