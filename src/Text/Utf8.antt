-- ===== src/Text/Utf8.antt =====
-- Go's `utf8.ValidString`: the texts that encoding/json writes and reads back as they are.
use otherhost.Base.{
  ℕ, zero, suc, ◌≡◌, refl, Bool, true, false, ◌&&◌, [], ◌∷◌, Option, none, some, if◌then◌else◌, ltb,
  within, ◌==◌, Bytes, All,
}

-- How many bytes continue a character that begins with this one, and the range of the first of them.
unfoldable pub continuation : ℕ → Option (ℕ × ℕ × ℕ)
continuation c =
    if ltb c 0x80
    then some (0, 0x80, 0xbf)
    else if within 0xc2 0xdf c
    then some (1, 0x80, 0xbf)
    else if c == 0xe0
    then some (2, 0xa0, 0xbf)
    else if c == 0xed
    then some (2, 0x80, 0x9f)
    else if within 0xe1 0xef c
    then some (2, 0x80, 0xbf)
    else if c == 0xf0
    then some (3, 0x90, 0xbf)
    else if within 0xf1 0xf3 c
    then some (3, 0x80, 0xbf)
    else if c == 0xf4
    then some (3, 0x80, 0x8f)
    else none

unfoldable pub continues : ℕ → ℕ → ℕ → Bytes → Bool
unfolding continuation
continues zero low high [] = true
continues (suc k) low high [] = false
continues zero low high (c ∷ s) = elim (continuation c) [
  | none ↦ false
  | some (k, first, last) ↦ continues k first last s
]
continues (suc k) low high (c ∷ s) = within low high c && continues k 0x80 0xbf s

unfoldable pub valid_utf8 : Bytes → Bool
unfolding continues
valid_utf8 s = continues 0 0x80 0xbf s

abbrev pub IsAscii : ℕ → Type 0
IsAscii c = ltb c 0x80 ≡ true

continues_ascii : (low high : ℕ) (s : Bytes) → All IsAscii s → continues 0 low high s ≡ true
unfolding continues continuation
continues_ascii low high [] h = refl
continues_ascii low high (c ∷ s) h = rw (h.0, continues) (continues_ascii 0x80 0xbf s h.1)

-- A text of ASCII characters is valid.
pub valid_utf8_ascii : (s : Bytes) → All IsAscii s → valid_utf8 s ≡ true
unfolding valid_utf8
valid_utf8_ascii s h = continues_ascii 0x80 0xbf s h
