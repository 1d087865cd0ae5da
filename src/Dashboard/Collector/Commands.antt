-- ===== src/Dashboard/Collector/Commands.antt =====
-- The commands reach the remote host as they are meant.
use otherhost.Base.{
  ℕ, ◌-◌, ◌<◌, ◌≡◌, refl, sym, ap, ◌∙◌, [], ◌∷◌, ◌++◌, some, arith, All, Bytes, take, drop, length,
}
use otherhost.Dashboard.Collector.{deletion_back, deletion_front, remote_project_deletion_command}
use otherhost.Dashboard.Shell.{plain, read_word, read_word-replace_quotes, replace_quotes, single}
use otherhost.Text.Base64.Padded.{IsBase64, std_decode-std_encode, std_encode, std_encode-IsBase64}
use otherhost.Text.Base64.{std_decode}

replace_quotes-IsBase64 : (s : Bytes) → All IsBase64 s → replace_quotes s ≡ s
unfolding replace_quotes
replace_quotes-IsBase64 [] h = refl
replace_quotes-IsBase64 (c ∷ s) h = ground (arith, replace_quotes-IsBase64 s h.1)

-- Where the quoted word begins.
abbrev pub word_offset : ℕ
word_offset = length deletion_front - 1

read_word-IsBase64 :
    (s rest : Bytes)
    → All IsBase64 s
    → read_word plain (39 ∷ (s ++ (39 ∷ 32 ∷ rest))) ≡ some (s, 32 ∷ rest)
unfolding read_word
read_word-IsBase64 s rest h =
    ap (λ t. read_word single (t ++ (39 ∷ 32 ∷ rest))) (sym (replace_quotes-IsBase64 s h))
    ∙ read_word-replace_quotes s rest

-- The script that deletes a project holds its path, whatever bytes it has, as one quoted word of letters,
-- digits, `+`, `/` and `=`, behind a fixed beginning: a shell reads just this word, then the fixed rest
-- of the script, and the word decodes to the path. So no part of a path is run as a command.
pub remote_project_deletion_command-reads_path :
    (project_path : Bytes)
    → All (λ b. b < 256) project_path
    → (take word_offset (remote_project_deletion_command project_path)
        ≡ take word_offset deletion_front)
      × (read_word plain (drop word_offset (remote_project_deletion_command project_path))
          ≡ some (std_encode project_path, drop 1 deletion_back))
      × All IsBase64 (std_encode project_path)
      × (std_decode (std_encode project_path) ≡ some project_path)
unfolding remote_project_deletion_command
remote_project_deletion_command-reads_path project_path h =
    let word = std_encode-IsBase64 project_path h in
    (
      refl,
      read_word-IsBase64 (std_encode project_path) (drop 2 deletion_back) word,
      word,
      std_decode-std_encode project_path h,
    )
