-- ===== src/Tests/Installing.antt =====
-- The installation of a key in a file, and a shell's reading of a command, at small inputs.
use otherhost.Base.{
  ◌≡◌, ◌≢◌, refl, true, false, [], ◌∷◌, ◌++◌, none, some, Bytes, All, bytes_eq, codes, drop, ok,
}
use otherhost.Dashboard.Shell.{
  login_shell, plain, read_word, remote_terminal_command, remote_terminal_command-reads_path,
}
use otherhost.Pairing.Install.Appended.{install_key_in_file-appends}
use otherhost.Pairing.Install.KeyLine.{normalize_ed25519_public_key-IsKeyLine}
use otherhost.Pairing.Install.Lasting.{install_key_in_file-installs}
use otherhost.Pairing.Install.{
  FileOutcomes, KeyFile, install_key_in_file, install_normalized, is_present, is_unfinished,
  change_mode, text_of,
}
use otherhost.Pairing.Keys.{get_u32}
use otherhost.Pairing.Ssh.{ed25519, first_two, normalize_ed25519_public_key, read_ssh_field}
use otherhost.Text.Base64.{std_decode}
use otherhost.Text.Lines.{fields, replace_crlf, split_lines}
use otherhost.Text.{IsVisible, contains_any, space_width, trim_space, trim_suffix_byte}

abbrev payload : Bytes
payload = codes "AAAAC3NzaC1lZDI1NTE5AAAAIAAAAAAAAAAAAAAAAAAAAAAAAAAAAAAAAAAAAAAAAAAA"

abbrev given : Bytes
given = codes "ssh-ed25519 " ++ (payload ++ codes " mac\n")

abbrev all_well : FileOutcomes
all_well = record {
  makes_directory = true;
  reads = true;
  opens = true;
  newline = none;
  line = none;
  changes_mode = true;
}

abbrev file : KeyFile
file = record { content = some (codes "ssh-rsa old"); mode = 0o644 }

installed : (install_key_in_file all_well file given).1 ≡ none
unfolding install_key_in_file install_normalized is_present is_unfinished change_mode
    normalize_ed25519_public_key first_two get_u32 read_ssh_field std_decode fields replace_crlf
    split_lines contains_any space_width trim_space trim_suffix_byte bytes_eq
installed = refl

installed_text :
    text_of (install_key_in_file all_well file given).0.content
    ≡ codes "ssh-rsa old\nssh-ed25519 " ++ (payload ++ codes "\n")
unfolding install_key_in_file install_normalized is_present is_unfinished change_mode
    normalize_ed25519_public_key first_two get_u32 read_ssh_field std_decode fields replace_crlf
    split_lines contains_any space_width trim_space trim_suffix_byte bytes_eq
installed_text = refl

install_key_in_file-installs_example :
    let after = (install_key_in_file all_well file given).0 in
    ((key : Bytes) × (normalize_ed25519_public_key given ≡ ok key)
      × (is_present key (text_of after.content) ≡ true))
    × (after.mode ≡ 0o600)
    × ((install_key_in_file all_well after given).0.content ≡ after.content)
install_key_in_file-installs_example =
    install_key_in_file-installs all_well all_well file given installed

-- The write of the key fails behind four bytes.
abbrev cut_short : FileOutcomes
cut_short = record all_well { line = some 4 }

install_key_in_file-appends_example :
    (added : Bytes) × (text_of (install_key_in_file cut_short file given).0.content
      ≡ codes "ssh-rsa old" ++ added)
install_key_in_file-appends_example = install_key_in_file-appends cut_short file given

normalised : normalize_ed25519_public_key given ≡ ok (ed25519 ++ (32 ∷ payload))
unfolding normalize_ed25519_public_key first_two get_u32 read_ssh_field std_decode fields
    contains_any space_width trim_suffix_byte bytes_eq
normalised = refl

normalize_ed25519_public_key-IsKeyLine_example :
    (word : Bytes) × (ed25519 ++ (32 ∷ payload) ≡ ed25519 ++ (32 ∷ word))
    × All IsVisible word
    × (word ≢ [])
normalize_ed25519_public_key-IsKeyLine_example =
    normalize_ed25519_public_key-IsKeyLine given (ed25519 ++ (32 ∷ payload)) normalised

not_empty : bytes_eq (codes "/a'; rm -rf b") [] ≡ false
unfolding bytes_eq
not_empty = refl

remote_terminal_command-reads_path_example :
    (remote_terminal_command (codes "/a'; rm -rf b")
      ≡ codes "cd -- " ++ drop 6 (remote_terminal_command (codes "/a'; rm -rf b")))
    × (read_word plain (drop 6 (remote_terminal_command (codes "/a'; rm -rf b")))
        ≡ some (codes "/a'; rm -rf b", codes " && " ++ login_shell))
remote_terminal_command-reads_path_example =
    remote_terminal_command-reads_path (codes "/a'; rm -rf b") not_empty
