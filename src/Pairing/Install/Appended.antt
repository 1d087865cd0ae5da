-- ===== src/Pairing/Install/Appended.antt =====
-- What stands in a file of keys is kept by an installation.
use otherhost.Base.{
  ℕ, ◌≡◌, refl, sym, ap, ◌∙◌, inl, inr, Bool, true, false, not, [], ◌∷◌, ◌++◌, Option, none, some,
  Bytes, take, Result, ok, err, Bool-cases, if◌then◌else◌, append_assoc, append-nil,
}
use otherhost.Pairing.Install.{
  FileOutcomes, InstallFault, end_write, finish_line, KeyFile, append_key, change_mode, opened_file,
  install_if_valid, install_key_in_file, install_normalized, is_present, is_unfinished, text_of,
  written,
}
use otherhost.Pairing.Messages.{Fault}
use otherhost.Pairing.Ssh.{normalize_ed25519_public_key}

-- The text of the file goes on from that text.
abbrev Extends : Bytes → KeyFile → Type 0
Extends text file = (added : Bytes) × (text_of file.content ≡ text ++ added)

written-extends :
    (text chunk : Bytes) (r : Option ℕ)
    → (added : Bytes) × ((written text chunk r).0 ≡ text ++ added)
written-extends text chunk none = (chunk, refl)
written-extends text chunk (some n) = (take n chunk, refl)

end_write-content :
    (io : FileOutcomes) (file : KeyFile) (w : Bytes × Bool)
    → (end_write io file w).0.content ≡ some w.0
unfolding change_mode
end_write-content io file (text, false) = refl
end_write-content io file (text, true) = elim (Bool-cases io.changes_mode) [
  | inl c ↦ rw c refl
  | inr c ↦ rw c refl
]

append_key-Extends :
    (io : FileOutcomes) (file : KeyFile) (key text : Bytes) (w : Bytes × Bool)
    → ((added : Bytes) × (w.0 ≡ text ++ added))
    → Extends text (append_key io file key w).0
append_key-Extends io file key text (after, false) h = h
append_key-Extends io file key text (after, true) (added, e) =
    let chunk = key ++ (10 ∷ []) in
    let (more, m) = written-extends after chunk io.line in
    (
      added ++ more,
      ap text_of (end_write-content io file (written after chunk io.line))
          ∙ m
          ∙ ap (λ t. t ++ more) e
          ∙ append_assoc text added more,
    )

finish_line-extends :
    (io : FileOutcomes) (text : Bytes) → (added : Bytes) × ((finish_line io text).0 ≡ text ++ added)
finish_line-extends io text = elim (Bool-cases (is_unfinished text)) [
  | inl u ↦ rw u (written-extends text (10 ∷ []) io.newline)
  | inr u ↦ rw u ([], sym (append-nil text))
]

unchanged : (file : KeyFile) → Extends (text_of file.content) file
unchanged file = ([], sym (append-nil (text_of file.content)))

change_mode-Extends :
    (changes : Bool) (file : KeyFile) → Extends (text_of file.content) (change_mode changes file).0
unfolding change_mode
change_mode-Extends true file = unchanged file
change_mode-Extends false file = unchanged file

if-Extends :
    (text : Bytes) (b : Bool) (x y : KeyFile × Option InstallFault)
    → Extends text x.0
    → Extends text y.0
    → Extends text (if b then x else y).0
if-Extends text true x y h k = h
if-Extends text false x y h k = k

install_normalized-Extends :
    (io : FileOutcomes) (file : KeyFile) (key : Bytes)
    → Extends (text_of file.content) (install_normalized io file key).0
unfolding install_normalized
install_normalized-Extends io file key =
    let text = text_of file.content in
    if-Extends text (not io.makes_directory) _ _ (unchanged file) (
      if-Extends text (not io.reads) _ _ (unchanged file) (
        if-Extends text (is_present key text) _ _ (change_mode-Extends io.changes_mode file) (
          if-Extends text (not io.opens) _ _ (unchanged file) (
            append_key-Extends io (opened_file file file.content) key text (finish_line io text)
              (finish_line-extends io text)))))

install_if_valid-Extends :
    (io : FileOutcomes) (file : KeyFile) (r : Result Fault Bytes)
    → Extends (text_of file.content) (install_if_valid io file r).0
install_if_valid-Extends io file (err fault) = unchanged file
install_if_valid-Extends io file (ok key) = install_normalized-Extends io file key

-- However an installation ends, what stood in the file before is kept: text is added behind it at most.
pub install_key_in_file-appends :
    (io : FileOutcomes) (file : KeyFile) (public_key : Bytes)
    → (added : Bytes) × (text_of (install_key_in_file io file public_key).0.content
        ≡ text_of file.content ++ added)
unfolding install_key_in_file
install_key_in_file-appends io file public_key =
    install_if_valid-Extends io file (normalize_ed25519_public_key public_key)
