-- ===== src/Pairing/Config.antt =====
-- internal/pairing/config.go: `updateKeyValueFile` and `SaveClientConfiguration`.
pub mod Saving
use otherhost.Base.{
  Bool, true, false, not, ◌||◌, List, [], ◌∷◌, ◌++◌, Option, none, some, if◌then◌else◌, Bytes,
  codes, bytes_eq, any, find, insert, or_blank, Result, ok, err,
}
use otherhost.Pairing.Files.{
  Disk, FileFault, StoredFile, WriteOutcomes, invalid_setting, read_fault, write_atomic,
}
use otherhost.Pairing.Messages.{Fault, PairResult}
use otherhost.Pairing.Names.{is_empty, net_host_invalid}
use otherhost.Pairing.Ssh.{known_hosts_line}
use otherhost.Text.Decimal.{itoa}
use otherhost.Text.Lines.{replace_crlf, split_lines}
use otherhost.Text.Parts.{contains, has_suffix, join, split_first}
use otherhost.Text.{contains_any, has_prefix, trim_space}

-- A Go `map[string]string`.
abbrev pub Settings : Type 0
Settings = List (Bytes × Bytes)

abbrev pub otherhost_name : Bytes
otherhost_name = codes "otherhost_name"

abbrev pub devbox_name : Bytes
devbox_name = codes "devbox_name"

abbrev pub saved_keys : List Bytes
saved_keys =
    otherhost_name
    ∷ codes "host"
    ∷ codes "ssh_user"
    ∷ codes "ssh_port"
    ∷ codes "known_hosts_file"
    ∷ []

-- The key of a trimmed line: `separator < 1` where there is no `=`, or one in front.
abbrev pub key_in_front : Option (Bytes × Bytes) → Option Bytes
key_in_front none = none
key_in_front (some (front, back)) = if is_empty front then none else some (trim_space front)

unfoldable pub key_of : Bytes → Option Bytes
key_of trimmed =
    if is_empty trimmed || has_prefix trimmed (codes "#")
    then none
    else key_in_front (split_first b'=' trimmed)

abbrev pub setting_line : Bytes → Bytes → Bytes
setting_line key value = key ++ b'=' ∷ value

-- A line, with the key that it newly sets, if it does.
abbrev pub put_value : Bytes → Bytes → Option Bytes → Bytes × Option Bytes
put_value line key none = (line, none)
put_value line key (some value) = (setting_line key value, some key)

abbrev pub update_keyed : Settings → Bytes → Option Bytes → Bytes × Option Bytes
update_keyed values line none = (line, none)
update_keyed values line (some key) =
    if bytes_eq key devbox_name
    then put_value line otherhost_name (find otherhost_name values)
    else put_value line key (find key values)

unfoldable pub update_line : Settings → Bytes → Bytes × Option Bytes
unfolding key_of
update_line values line = update_keyed values line (key_of (trim_space line))

-- `seen`, a map whose values are all true.
abbrev pub mark : Option Bytes → List (Bytes × Bool) → List (Bytes × Bool)
mark none seen = seen
mark (some key) seen = insert key true seen

-- `!seen[key]`
abbrev pub is_unseen : Option Bool → Bool
is_unseen none = true
is_unseen (some b) = not b

-- The loop over the lines.
unfoldable pub update_lines :
    Settings → List (Bytes × Bool) → List Bytes → List Bytes × List (Bytes × Bool)
update_lines values seen [] = ([], seen)
update_lines values seen (line ∷ lines) =
    let (changed, key) = update_line values line in
    let (rest, marked) = update_lines values (mark key seen) lines in (changed ∷ rest, marked)

-- `if len(lines) == 1 && lines[0] == ""`
abbrev pub drop_blank : List Bytes → List Bytes
drop_blank ([] ∷ []) = []
drop_blank lines = lines

-- The lines that the loop over the keys appends.
unfoldable pub missing_lines : Settings → List (Bytes × Bool) → List Bytes → List Bytes
missing_lines values seen [] = []
missing_lines values seen (key ∷ keys) =
    let rest = missing_lines values seen keys in
    if is_unseen (find key seen) then setting_line key (or_blank (find key values)) ∷ rest else rest

abbrev pub with_missing : Settings → List Bytes × List (Bytes × Bool) → List Bytes
with_missing values (lines, seen) = drop_blank lines ++ missing_lines values seen saved_keys

unfoldable pub updated_lines : Settings → List Bytes → List Bytes
updated_lines values lines = with_missing values (update_lines values [] lines)

unfoldable pub bytes_contain : Bytes → Bytes → Bool
bytes_contain value needle = contains value needle

abbrev pub newline_of : Bytes → Bytes
newline_of content = if bytes_contain content (codes "\r\n") then codes "\r\n" else codes "\n"

abbrev pub end_lines : Bytes → Bytes → Bytes
end_lines newline output = if has_suffix output newline then output else output ++ newline

-- The text that `updateKeyValueFile` writes.
unfoldable pub updated_text : Settings → Bytes → Bytes
updated_text values content =
    let lines = updated_lines values (split_lines (replace_crlf content)) in
    end_lines (newline_of content) (join (newline_of content) lines)

unfoldable pub is_invalid_setting : Bytes × Bytes → Bool
is_invalid_setting (key, value) =
    is_empty key || (contains_any key (codes "=\r\n") || contains_any value (codes "\r\n"))

abbrev pub text_at : Option StoredFile → Bytes
text_at none = []
text_at (some file) = file.text

-- Whether the file is read, where it exists.
unfoldable pub update_key_value_file :
    Bool → WriteOutcomes → Bytes → Settings → Disk → Disk × Option FileFault
update_key_value_file reads io path values disk =
    if any is_invalid_setting values
    then (disk, some invalid_setting)
    else if not reads
    then (disk, some read_fault)
    else write_atomic io path (updated_text values (text_at (find path disk))) 0o600 disk

pub data SaveFault : Type 0 where
  invalid_host invalid_path : SaveFault
  no_host_line : Fault → SaveFault
  hosts_not_saved config_not_saved : FileFault → SaveFault

-- How the system calls for the two files end.
pub record SaveOutcomes : Type 0 where
  pub hosts : WriteOutcomes
  pub reads : Bool
  pub config : WriteOutcomes

abbrev pub saved_settings : Bytes → PairResult → Settings
saved_settings known_hosts_path result =
    (otherhost_name, result.otherhost_name)
    ∷ (codes "host", result.host)
    ∷ (codes "ssh_user", result.ssh_user)
    ∷ (codes "ssh_port", itoa result.ssh_port)
    ∷ (codes "known_hosts_file", known_hosts_path)
    ∷ []

abbrev pub config_result : Disk × Option FileFault → Disk × Option SaveFault
config_result (disk, none) = (disk, none)
config_result (disk, some fault) = (disk, some (config_not_saved fault))

abbrev pub save_config :
    SaveOutcomes → Bytes → Settings → Disk × Option FileFault → Disk × Option SaveFault
save_config io path values (disk, some fault) = (disk, some (hosts_not_saved fault))
save_config io path values (disk, none) =
    config_result (update_key_value_file io.reads io.config path values disk)

abbrev pub save_both :
    SaveOutcomes → Bytes → Bytes → PairResult → Disk → Result Fault Bytes → Disk × Option SaveFault
save_both io config_path known_hosts_path result disk (err fault) =
    (disk, some (no_host_line fault))
save_both io config_path known_hosts_path result disk (ok line) =
    save_config io config_path (saved_settings known_hosts_path result)
      (write_atomic io.hosts known_hosts_path (line ++ b'\n' ∷ []) 0o600 disk)

unfoldable pub save_client_configuration :
    SaveOutcomes → Bytes → Bytes → PairResult → Disk → Disk × Option SaveFault
save_client_configuration io config_path known_hosts_path result disk =
    if contains_any result.host (codes "\r\n=") || net_host_invalid result.host
    then (disk, some invalid_host)
    else if contains_any known_hosts_path (codes "\r\n\"")
    then (disk, some invalid_path)
    else save_both io config_path known_hosts_path result disk
        (known_hosts_line result.host result.ssh_port result.ssh_host_key)
