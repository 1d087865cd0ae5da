-- ===== src/Text/Lines.antt =====
-- Go's `strings.ReplaceAll(s, "\r\n", "\n")`, `strings.Split(s, "\n")` and `strings.Fields`.
pub mod Joined
pub mod Ended
use otherhost.Base.{
  ℕ, zero, suc, true, false, ◌&&◌, List, [], ◌∷◌, ◌++◌, if◌then◌else◌, ◌==◌, Bytes,
}
use otherhost.Text.{space_width}

unfoldable pub replace_crlf : Bytes → Bytes
replace_crlf [] = []
replace_crlf (c ∷ []) = c ∷ []
replace_crlf (c ∷ d ∷ s) =
    let joined = b'\n' ∷ replace_crlf s in
    let kept = c ∷ replace_crlf (d ∷ s) in if c == b'\r' && d == b'\n' then joined else kept

unfoldable pub split_from : Bytes → Bytes → List Bytes
split_from line [] = line ∷ []
split_from line (c ∷ s) = elim (c == b'\n') [
  | true ↦ line ∷ split_from [] s
  | false ↦ split_from (line ++ c ∷ []) s
]

unfoldable pub split_lines : Bytes → List Bytes
unfolding split_from
split_lines s = split_from [] s

-- The words of a text behind the word that has begun; the number counts the bytes left of a space.
unfoldable pub fields_from : Bytes → ℕ → Bytes → List Bytes
fields_from [] k [] = []
fields_from (w ∷ word) k [] = (w ∷ word) ∷ []
fields_from word (suc k) (c ∷ s) = fields_from word k s
fields_from [] zero (c ∷ s) = elim (space_width (c ∷ s)) [
  | zero ↦ fields_from (c ∷ []) 0 s
  | suc k ↦ fields_from [] k s
]
fields_from (w ∷ word) zero (c ∷ s) = elim (space_width (c ∷ s)) [
  | zero ↦ fields_from ((w ∷ word) ++ c ∷ []) 0 s
  | suc k ↦ (w ∷ word) ∷ fields_from [] k s
]

unfoldable pub fields : Bytes → List Bytes
unfolding fields_from
fields s = fields_from [] 0 s
