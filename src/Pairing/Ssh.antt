-- ===== src/Pairing/Ssh.antt =====
-- internal/pairing/ssh.go: Ed25519 public keys, their installation and the known-hosts line.
use otherhost.Base.{
  ◌+◌, ◌-◌, not, ◌||◌, List, ◌∷◌, ◌++◌, Option, none, some, if◌then◌else◌, ltb, ◌==◌, Bytes, codes,
  bytes_eq, length, take, drop, ℤ, Result, ok, ◌>>=◌, ◌>>◌, refuse_if, or_err,
}
use otherhost.Text.{contains_any, trim_suffix_byte}
use otherhost.Text.Base64.{std_decode}
use otherhost.Text.Decimal.{itoa}
use otherhost.Text.Lines.{fields}
use otherhost.Pairing.Keys.{get_u32}
use otherhost.Pairing.Messages.{
  Fault, key_lines, key_kind, key_base64, key_algorithm, key_malformed, invalid_ssh_port,
}
use otherhost.Pairing.Names.{valid_port}

abbrev pub ed25519 : Bytes
ed25519 = codes "ssh-ed25519"

-- A field and what follows it. On a 64-bit `int` the size is never negative.
unfoldable pub read_ssh_field : Bytes → Option (Bytes × Bytes)
read_ssh_field value =
    let size = get_u32 (take 4 value) in
    if ltb (length value) 4
    then none
    else if ltb (length value - 4) size
    then none
    else some (take size (drop 4 value), drop (4 + size) value)

-- The first two words of a line, if there are so many.
unfoldable pub first_two : List Bytes → Option (Bytes × Bytes)
first_two (a ∷ b ∷ r) = some (a, b)
first_two _ = none

unfoldable pub normalize_ed25519_public_key : Bytes → Result Fault Bytes
normalize_ed25519_public_key public_key = do
  let line = trim_suffix_byte b'\r' (trim_suffix_byte b'\n' public_key)
  refuse_if (contains_any line (codes "\r\n")) key_lines
  (kind, payload) ← or_err (first_two (fields line)) key_kind
  refuse_if (not (bytes_eq kind ed25519)) key_kind
  blob ← or_err (std_decode payload) key_base64
  (algorithm, after_algorithm) ← or_err (read_ssh_field blob) key_algorithm
  refuse_if (not (bytes_eq algorithm ed25519)) key_algorithm
  (key, remainder) ← or_err (read_ssh_field after_algorithm) key_malformed
  refuse_if (not (length key == 32) || not (length remainder == 0)) key_malformed
  ok (ed25519 ++ b' ' ∷ payload)

unfoldable pub known_hosts_line : Bytes → ℤ → Bytes → Result Fault Bytes
known_hosts_line host port public_key = do
  normalized ← normalize_ed25519_public_key public_key
  refuse_if (not (valid_port port)) invalid_ssh_port
  ok (codes "[" ++ host ++ codes "]:" ++ itoa port ++ codes " " ++ normalized)
