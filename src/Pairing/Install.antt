-- ===== src/Pairing/Install.antt =====
-- internal/pairing/ssh.go: `installKeyInFile`, with the outcome of each file operation as an input.
pub mod KeyLine
pub mod Normal
pub mod Lasting
pub mod Appended
use otherhost.Base.{
  ℕ, Bool, true, false, not, List, [], ◌∷◌, ◌++◌, Option, none, some, if◌then◌else◌, ◌==◌, Bytes,
  bytes_eq, any, take, Result, ok, err,
}
use otherhost.Pairing.Messages.{Fault}
use otherhost.Pairing.Ssh.{normalize_ed25519_public_key}
use otherhost.Text.Lines.{replace_crlf, split_lines}
use otherhost.Text.{trim_space}

-- A file's content, if the file exists, and its permissions.
pub record KeyFile : Type 0 where
  pub content : Option Bytes
  pub mode : ℕ

-- How the system calls end: whether the directory is made, the file is read (or does not exist), opened
-- and its permissions changed; and for each of the two writes none, or the bytes it wrote before an error.
pub record FileOutcomes : Type 0 where
  pub makes_directory : Bool
  pub reads : Bool
  pub opens : Bool
  pub newline : Option ℕ
  pub line : Option ℕ
  pub changes_mode : Bool

pub data InstallFault : Type 0 where
  invalid_key : Fault → InstallFault
  directory_fault read_fault open_fault write_fault mode_fault : InstallFault

abbrev pub text_of : Option Bytes → Bytes
text_of none = []
text_of (some text) = text

unfoldable pub is_present : Bytes → Bytes → Bool
is_present key text = any (λ line. bytes_eq (trim_space line) key) (split_lines (replace_crlf text))

-- `len(existing) > 0 && existing[len(existing)-1] != '\n'`
unfoldable pub is_unfinished : Bytes → Bool
is_unfinished [] = false
is_unfinished (c ∷ []) = not (c == 10)
is_unfinished (c ∷ d ∷ s) = is_unfinished (d ∷ s)

-- The text behind a write, and whether the write succeeded.
abbrev pub written : Bytes → Bytes → Option ℕ → Bytes × Bool
written text chunk none = (text ++ chunk, true)
written text chunk (some n) = (text ++ take n chunk, false)

unfoldable pub change_mode : Bool → KeyFile → KeyFile × Option InstallFault
change_mode true file = (record file { mode = 0o600 }, none)
change_mode false file = (file, some mode_fault)

abbrev pub with_text : KeyFile → Bytes → KeyFile
with_text file text = record file { content = some text }

abbrev pub end_write : FileOutcomes → KeyFile → Bytes × Bool → KeyFile × Option InstallFault
end_write io file (text, true) = change_mode io.changes_mode (with_text file text)
end_write io file (text, false) = (with_text file text, some write_fault)

abbrev pub append_key :
    FileOutcomes → KeyFile → Bytes → Bytes × Bool → KeyFile × Option InstallFault
append_key io file key (text, true) = end_write io file (written text (key ++ (10 ∷ [])) io.line)
append_key io file key (text, false) = (with_text file text, some write_fault)

-- `os.OpenFile` makes a file that is missing, with these permissions (a umask that takes some of them from
-- the owner is left out).
abbrev pub opened_file : KeyFile → Option Bytes → KeyFile
opened_file file none = record { content = some []; mode = 0o600 }
opened_file file (some text) = file

-- The text behind the write that finishes its last line, where one is needed.
abbrev pub finish_line : FileOutcomes → Bytes → Bytes × Bool
finish_line io text = if is_unfinished text then written text (10 ∷ []) io.newline else (text, true)

unfoldable pub install_normalized : FileOutcomes → KeyFile → Bytes → KeyFile × Option InstallFault
unfolding is_present is_unfinished change_mode
install_normalized io file key =
    let text = text_of file.content in
    if not io.makes_directory
    then (file, some directory_fault)
    else if not io.reads
    then (file, some read_fault)
    else if is_present key text
    then change_mode io.changes_mode file
    else if not io.opens
    then (file, some open_fault)
    else append_key io (opened_file file file.content) key (finish_line io text)

abbrev pub install_if_valid :
    FileOutcomes → KeyFile → Result Fault Bytes → KeyFile × Option InstallFault
install_if_valid io file (err fault) = (file, some (invalid_key fault))
install_if_valid io file (ok key) = install_normalized io file key

unfoldable pub install_key_in_file : FileOutcomes → KeyFile → Bytes → KeyFile × Option InstallFault
unfolding install_normalized
install_key_in_file io file public_key =
    install_if_valid io file (normalize_ed25519_public_key public_key)
