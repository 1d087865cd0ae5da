-- ===== src/Dashboard/Shell.antt =====
-- internal/dashboard/terminal.go: the command that a terminal runs on the remote host, and how a POSIX
-- shell reads a word of it.
use otherhost.Base.{
  ℕ, ◌≡◌, refl, sym, ap, ◌∙◌, Bool, false, ◌||◌, [], ◌∷◌, ◌++◌, Option, none, some, if◌then◌else◌,
  ◌==◌, Bytes, codes, bytes_eq, Bool-cases, inl, inr, ==_iff, append_assoc, drop,
}

-- `strings.ReplaceAll(value, "'", ...)` with the quote in double quotes between two single-quoted parts.
unfoldable pub replace_quotes : Bytes → Bytes
replace_quotes [] = []
replace_quotes (c ∷ s) =
    let rest = replace_quotes s in if c == 39 then 39 ∷ 34 ∷ 39 ∷ 34 ∷ 39 ∷ rest else c ∷ rest

abbrev pub quote_posix_shell : Bytes → Bytes
quote_posix_shell value = 39 ∷ (replace_quotes value ++ (39 ∷ []))

abbrev pub login_shell : Bytes
login_shell = codes "unset SSH_CLIENT SSH_CONNECTION SSH_TTY; exec \"${SHELL:-/bin/bash}\" -l"

unfoldable pub remote_terminal_command : Bytes → Bytes
remote_terminal_command project_path =
    if bytes_eq project_path []
    then login_shell
    else codes "cd -- " ++ (quote_posix_shell project_path ++ (codes " && " ++ login_shell))

-- How a shell reads: outside quotes, between single quotes, and between double quotes.
pub data Quoting : Type 0 where
  plain single double : Quoting

-- The characters that a plain word does not stand for by themselves: $ ` \ & ; | < > ( ) * ? [ # ~ and newline.
unfoldable pub is_special : ℕ → Bool
is_special c =
    (c == 36 || (c == 96 || c == 92))
    || ((c == 38 || (c == 59 || (c == 124 || (c == 60 || (c == 62 || (c == 40 || c == 41))))))
        || (c == 42 || (c == 63 || (c == 91 || (c == 35 || (c == 126 || c == 10))))))

abbrev pub add_byte : ℕ → Option (Bytes × Bytes) → Option (Bytes × Bytes)
add_byte c none = none
add_byte c (some (word, rest)) = some (c ∷ word, rest)

-- The value of the word that a text begins with, and the text behind it, by the rules of POSIX for
-- quotes and for a space as the end of a word; none for a quote that is not closed and for an expansion
-- or an operator.
unfoldable pub read_word : Quoting → Bytes → Option (Bytes × Bytes)
unfolding is_special
read_word plain [] = some ([], [])
read_word plain (c ∷ s) =
    let single_quoted = read_word single s in
    let double_quoted = read_word double s in
    let rest = read_word plain s in
    if c == 39
    then single_quoted
    else if c == 34
    then double_quoted
    else if c == 32
    then some ([], c ∷ s)
    else if is_special c
    then none
    else add_byte c rest
read_word single [] = none
read_word single (c ∷ s) =
    let outside = read_word plain s in
    let rest = read_word single s in if c == 39 then outside else add_byte c rest
read_word double [] = none
read_word double (c ∷ s) =
    let outside = read_word plain s in
    let rest = read_word double s in
    if c == 34 then outside else if c == 36 || (c == 96 || c == 92) then none else add_byte c rest

pub read_word-replace_quotes :
    (v rest : Bytes) → read_word single (replace_quotes v ++ (39 ∷ 32 ∷ rest)) ≡ some (v, 32 ∷ rest)
unfolding read_word replace_quotes is_special
read_word-replace_quotes [] rest = refl
read_word-replace_quotes (c ∷ v) rest = elim (Bool-cases (c == 39)) [
  | inl e ↦ rw e (
      ap (add_byte 39) (read_word-replace_quotes v rest)
      ∙ ap (λ x. some (x ∷ v, 32 ∷ rest)) (sym ((==_iff c 39).0 e)))
  | inr e ↦ rw e (rw e (ap (add_byte c) (read_word-replace_quotes v rest)))
]

-- The shell on the remote host reads the project path as one word, whatever bytes it has: the command
-- changes to just that directory, and what follows is the fixed rest of the command.
pub remote_terminal_command-reads_path :
    (project_path : Bytes)
    → bytes_eq project_path [] ≡ false
    → (remote_terminal_command project_path
        ≡ codes "cd -- " ++ drop 6 (remote_terminal_command project_path))
      × (read_word plain (drop 6 (remote_terminal_command project_path))
          ≡ some (project_path, codes " && " ++ login_shell))
unfolding remote_terminal_command read_word
remote_terminal_command-reads_path project_path n =
    let rest = codes "&& " ++ login_shell in
    rw n (
      (
        refl,
        ap (read_word single) (append_assoc (replace_quotes project_path) (39 ∷ []) (32 ∷ rest))
            ∙ read_word-replace_quotes project_path rest,
      ))
