-- ===== src/Pairing/Install/Lasting.antt =====
-- A key that is installed in a file stands in it, and a second installation changes nothing.
use otherhost.Pairing.Install.KeyLine.{
  IsKeyLine, key_line-IsInLine, key_line-trimmed, normalize_ed25519_public_key-IsKeyLine,
}
use otherhost.Base.{
  ℕ, ◌≡◌, refl, sym, ap, ◌∙◌, ◌⊎◌, inl, inr, Bool, true, false, not, [], ◌∷◌, ◌++◌, Option, none,
  some, arith, Bytes, bytes_eq, bytes_eq_refl, Result, ok, err, Bool-cases, if◌then◌else◌,
}
use otherhost.Pairing.Install.{
  FileOutcomes, InstallFault, directory_fault, end_write, finish_line, open_fault, read_fault,
  KeyFile, append_key, change_mode, install_if_valid, install_key_in_file, install_normalized,
  is_present, is_unfinished, opened_file, text_of, with_text, written,
}
use otherhost.Pairing.Messages.{Fault}
use otherhost.Pairing.Ssh.{normalize_ed25519_public_key}
use otherhost.Text.Lines.Joined.{EndsLine, any-appended_line}
use otherhost.Text.{trim_space}

is_unfinished-cases : (text : Bytes) → is_unfinished text ≡ false → (text ≡ []) ⊎ EndsLine text
unfolding is_unfinished
is_unfinished-cases [] h = inl refl
is_unfinished-cases (c ∷ []) h = inr ([], ground arith)
is_unfinished-cases (c ∷ d ∷ s) h = elim (is_unfinished-cases (d ∷ s) h) [
  | inl n ↦ absurd (ground arith)
  | inr (front, e) ↦ inr (c ∷ front, ap (◌∷◌ c) e)
]

-- A key that is appended behind a finished line is present.
is_present-appended :
    (key text : Bytes)
    → IsKeyLine key
    → (text ≡ []) ⊎ EndsLine text
    → is_present key (text ++ (key ++ (10 ∷ []))) ≡ true
unfolding is_present
is_present-appended key text k h =
    any-appended_line (λ line. bytes_eq (trim_space line) key) text key h (key_line-IsInLine key k)
      (ap (λ t. bytes_eq t key) (key_line-trimmed key k) ∙ bytes_eq_refl key)

abbrev Holds : Bytes → KeyFile → Type 0
Holds key file = (is_present key (text_of file.content) ≡ true) × (file.mode ≡ 0o600)

change_mode-Holds :
    (key : Bytes) (changes : Bool) (file : KeyFile)
    → is_present key (text_of file.content) ≡ true
    → (change_mode changes file).1 ≡ none
    → Holds key (change_mode changes file).0
unfolding change_mode
change_mode-Holds key true file h e = (h, refl)
change_mode-Holds key false file h e = absurd (ground arith)

written-done :
    (text chunk : Bytes) (r : Option ℕ)
    → (written text chunk r).1 ≡ true
    → (written text chunk r).0 ≡ text ++ chunk
written-done text chunk none e = refl
written-done text chunk (some n) e = absurd (ground arith)

end_write-Holds :
    (io : FileOutcomes) (file : KeyFile) (key : Bytes) (w : Bytes × Bool)
    → (w.1 ≡ true → is_present key w.0 ≡ true)
    → (end_write io file w).1 ≡ none
    → Holds key (end_write io file w).0
end_write-Holds io file key (text, true) h e =
    change_mode-Holds key io.changes_mode (with_text file text) (h refl) e
end_write-Holds io file key (text, false) h e = absurd (ground arith)

append_key-Holds :
    (io : FileOutcomes) (file : KeyFile) (key : Bytes) (w : Bytes × Bool)
    → IsKeyLine key
    → (w.1 ≡ true → (w.0 ≡ []) ⊎ EndsLine w.0)
    → (append_key io file key w).1 ≡ none
    → Holds key (append_key io file key w).0
append_key-Holds io file key (text, false) k h e = absurd (ground arith)
append_key-Holds io file key (text, true) k h e =
    end_write-Holds io file key (written text (key ++ (10 ∷ [])) io.line)
      (λ d.
        ap (is_present key) (written-done text (key ++ (10 ∷ [])) io.line d)
        ∙ is_present-appended key text k (h refl))
      e

finish_line-finished :
    (io : FileOutcomes) (text : Bytes)
    → (finish_line io text).1 ≡ true
    → ((finish_line io text).0 ≡ []) ⊎ EndsLine (finish_line io text).0
finish_line-finished io text d = elim (Bool-cases (is_unfinished text)) [
  | inl u ↦ inr (
    text,
    ap (λ b. (if b then written text (10 ∷ []) io.newline else (text, true)).0) u
        ∙ written-done text (10 ∷ []) io.newline (
            ap (λ b. (if b then written text (10 ∷ []) io.newline else (text, true)).1) (sym u)
            ∙ d),
  )
  | inr u ↦ rw u (is_unfinished-cases text u)
]

if-Holds :
    (key : Bytes) (b : Bool) (x y : KeyFile × Option InstallFault)
    → (b ≡ true → x.1 ≡ none → Holds key x.0)
    → (b ≡ false → y.1 ≡ none → Holds key y.0)
    → (if b then x else y).1 ≡ none
    → Holds key (if b then x else y).0
if-Holds key true x y f g e = f refl e
if-Holds key false x y f g e = g refl e

refused : (key : Bytes) (file : KeyFile) (fault : InstallFault) → some fault ≡ none → Holds key file
refused key file fault e = absurd (ground arith)

install_normalized-Holds :
    (io : FileOutcomes) (file : KeyFile) (key : Bytes)
    → IsKeyLine key
    → (install_normalized io file key).1 ≡ none
    → Holds key (install_normalized io file key).0
unfolding install_normalized
install_normalized-Holds io file key k =
    let text = text_of file.content in
    if-Holds key (not io.makes_directory) _ _ (λ b. refused key file directory_fault)
      (λ b.
        if-Holds key (not io.reads) _ _ (λ c. refused key file read_fault)
          (λ c.
            if-Holds key (is_present key text) _ _
              (λ p. change_mode-Holds key io.changes_mode file p)
              (λ p.
                if-Holds key (not io.opens) _ _ (λ o. refused key file open_fault)
                  (λ o.
                    append_key-Holds io (opened_file file file.content) key (finish_line io text) k
                      (finish_line-finished io text)))))

-- An installation that finds the key changes no content, however it ends.
install_normalized-again :
    (io : FileOutcomes) (file : KeyFile) (key : Bytes)
    → is_present key (text_of file.content) ≡ true
    → (install_normalized io file key).0.content ≡ file.content
unfolding install_normalized change_mode
install_normalized-again io file key p = ground arith

install_if_valid-installs :
    (io later : FileOutcomes) (file : KeyFile) (r : Result Fault Bytes)
    → ((key : Bytes) → r ≡ ok key → IsKeyLine key)
    → (install_if_valid io file r).1 ≡ none
    → let after = (install_if_valid io file r).0 in
      ((key : Bytes) × (r ≡ ok key) × (is_present key (text_of after.content) ≡ true))
      × (after.mode ≡ 0o600)
      × ((install_if_valid later after r).0.content ≡ after.content)
install_if_valid-installs io later file (err fault) f e = absurd (ground arith)
install_if_valid-installs io later file (ok key) f e =
    let (p, m) = install_normalized-Holds io file key (f key refl) e in
    ((key, refl, p), m, install_normalized-again later (install_normalized io file key).0 key p)

-- After an installation without an error, the key that was given, in its normal form, is a line of the
-- file, the file is the user's alone, and no later installation of the key changes the file's content,
-- whatever its system calls answer.
pub install_key_in_file-installs :
    (io later : FileOutcomes) (file : KeyFile) (public_key : Bytes)
    → (install_key_in_file io file public_key).1 ≡ none
    → let after = (install_key_in_file io file public_key).0 in
      ((key : Bytes) × (normalize_ed25519_public_key public_key ≡ ok key)
        × (is_present key (text_of after.content) ≡ true))
      × (after.mode ≡ 0o600)
      × ((install_key_in_file later after public_key).0.content ≡ after.content)
unfolding install_key_in_file
install_key_in_file-installs io later file public_key e =
    install_if_valid-installs io later file (normalize_ed25519_public_key public_key)
      (normalize_ed25519_public_key-IsKeyLine public_key) e
