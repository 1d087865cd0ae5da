-- ===== src/Tests/Settings.antt =====
-- A pairing is saved over a configuration and loaded, at a small input.
use otherhost.Base.{
  ◌≡◌, ◌⊎◌, refl, true, false, [], ◌∷◌, ◌++◌, List, none, some, arith, Bytes, All, bytes_eq, codes,
  find, if◌then◌else◌, ok, err, pos, reverse,
}
use otherhost.Dashboard.Config.Entries.{settings}
use otherhost.Dashboard.Config.Loaded.{IsNamed, IsReady, load_config-saved, paired_config}
use otherhost.Dashboard.Config.Roots.{IsPlainSegment, normalize_projects_root-IsPlainSegment}
use otherhost.Dashboard.Config.{
  bad_name, clean_segments, clean_rooted, load_config, normalize_projects_root, portable_value,
  resolve_home_path, scan_lines, setting_of,
}
use otherhost.Pairing.Config.Saving.{AreApart, IsSaved, save_client_configuration-IsSaved}
use otherhost.Pairing.Config.{
  SaveOutcomes, bytes_contain, is_invalid_setting, key_of, missing_lines, save_client_configuration,
  text_at, update_key_value_file, update_line, update_lines, updated_lines, updated_text,
}
use otherhost.Pairing.Files.Atomic.{IsGone, IsNew, IsWhole, write_atomic-IsWhole}
use otherhost.Pairing.Files.{Disk, WriteOutcomes, fill_temporary, new_file, write_atomic}
use otherhost.Pairing.Keys.{get_u32}
use otherhost.Pairing.Messages.{PairResult}
use otherhost.Pairing.Names.{is_allowed, is_alphanumeric, is_empty, net_host_invalid, valid_port}
use otherhost.Pairing.Ssh.{
  first_two, known_hosts_line, normalize_ed25519_public_key, read_ssh_field,
}
use otherhost.Text.Base64.{std_decode}
use otherhost.Text.Decimal.{itoa}
use otherhost.Text.Lines.{fields, replace_crlf, split_lines}
use otherhost.Text.Parts.{contains, has_suffix, join, split_first, split_on, trim_prefix}
use otherhost.Text.{
  contains_any, contains_byte, has_prefix, space_width, trim_space, trim_suffix_byte,
}

abbrev old_text : Bytes
old_text = codes "# mine\r\nidentity_file = /id\r\n devbox_name=old\r\nprojects_root=~/work"

abbrev config_path : Bytes
config_path = codes "c"

abbrev hosts_path : Bytes
hosts_path = codes "/h"

abbrev old_disk : Disk
old_disk = (config_path, new_file old_text 0o644) ∷ []

abbrev writes_to : Bytes → WriteOutcomes
writes_to temp = record {
  makes_directory = true;
  temporary = some temp;
  changes_mode = true;
  write = none;
  syncs = true;
  closes = true;
  renames = true;
  removes = true;
}

abbrev saves : SaveOutcomes
saves = record { hosts = writes_to (codes "t"); reads = true; config = writes_to (codes "u") }

abbrev paired : PairResult
paired = record {
  otherhost_name = codes "pc";
  host = codes "10.0.0.7";
  ssh_user = codes "ann";
  ssh_port = pos 2222;
  ssh_host_key =
      codes "ssh-ed25519 AAAAC3NzaC1lZDI1NTE5AAAAIAAAAAAAAAAAAAAAAAAAAAAAAAAAAAAAAAAAAAAAAAAA";
}

abbrev new_text : Bytes
new_text =
    codes "# mine\r\nidentity_file = /id\r\notherhost_name=pc\r\nprojects_root=~/work\r\n"
    ++ codes "host=10.0.0.7\r\nssh_user=ann\r\nssh_port=2222\r\nknown_hosts_file=/h\r\n"

abbrev host_text : Bytes
host_text = codes "[10.0.0.7]:2222 " ++ (paired.ssh_host_key ++ codes "\n")

abbrev new_disk : Disk
new_disk = (config_path, new_file new_text 0o600) ∷ (hosts_path, new_file host_text 0o600) ∷ []

update_test :
    updated_text
      ((codes "otherhost_name", codes "pc")
        ∷ (codes "host", codes "10.0.0.7")
        ∷ (codes "ssh_user", codes "ann")
        ∷ (codes "ssh_port", codes "2222")
        ∷ (codes "known_hosts_file", codes "/h")
        ∷ [])
      old_text
    ≡ new_text
unfolding updated_text updated_lines update_lines update_line missing_lines key_of bytes_contain
    contains has_suffix join split_first replace_crlf split_lines space_width trim_space has_prefix
    is_empty bytes_eq
update_test = refl

saved_disk :
    save_client_configuration saves config_path hosts_path paired old_disk ≡ (new_disk, none)
unfolding save_client_configuration update_key_value_file is_invalid_setting write_atomic
    fill_temporary updated_text updated_lines update_lines update_line missing_lines key_of
    bytes_contain contains has_suffix join split_first replace_crlf split_lines space_width
    trim_space has_prefix is_empty bytes_eq contains_any contains_byte net_host_invalid is_allowed
    is_alphanumeric itoa known_hosts_line normalize_ed25519_public_key first_two get_u32
    read_ssh_field std_decode fields trim_suffix_byte valid_port
saved_disk = refl

apart : AreApart saves config_path hosts_path
apart = record {
  files = λ e. ground arith;
  hosts_temporary = λ e. ground arith;
  not_config = λ e. ground arith;
  config_temporary = λ e. ground arith;
  not_hosts = λ e. ground arith;
}

ready : IsReady none old_text (codes "/id") (codes "work")
unfolding settings setting_of split_first split_lines space_width trim_space has_prefix is_empty
    bytes_eq resolve_home_path normalize_projects_root trim_prefix split_on contains_any
    contains_byte
ready = record { identity_value = refl; identity_given = refl; root_accepted = refl }

named : IsNamed hosts_path paired
unfolding is_empty trim_space space_width portable_value is_allowed is_alphanumeric contains_byte
    bytes_eq
named = record {
  name_given = refl;
  name_trimmed = refl;
  user_portable = refl;
  user_changed = refl;
  hosts_trimmed = refl;
}

abbrev new_lines : List Bytes
new_lines =
    codes "# mine"
    ∷ codes "identity_file = /id"
    ∷ codes "otherhost_name=pc"
    ∷ codes "projects_root=~/work"
    ∷ codes "host=10.0.0.7"
    ∷ codes "ssh_user=ann"
    ∷ codes "ssh_port=2222"
    ∷ codes "known_hosts_file=/h"
    ∷ []

scanned_lines : scan_lines (text_at (find config_path new_disk)) ≡ some new_lines
unfolding scan_lines split_lines trim_suffix_byte bytes_eq
scanned_lines = refl

load_config-saved_example : load_config none true (some (text_at (find config_path new_disk))) ≡ (
    if portable_value (codes "pc") (codes "._-")
    then ok (paired_config none paired hosts_path (codes "/id") (codes "work"))
    else err bad_name)
unfolding bytes_eq
load_config-saved_example =
    load_config-saved saves config_path hosts_path paired old_disk new_disk none (codes "/id")
      (codes "work") new_lines apart saved_disk named ready scanned_lines

save_client_configuration-IsSaved_example :
    IsSaved config_path hosts_path paired old_disk
      (save_client_configuration saves config_path hosts_path paired old_disk)
save_client_configuration-IsSaved_example =
    save_client_configuration-IsSaved saves config_path hosts_path paired old_disk apart

-- The write stops behind three bytes.
abbrev stops : WriteOutcomes
stops = record (writes_to (codes "t")) { write = some 3 }

is_new : IsNew config_path old_disk stops.temporary
unfolding bytes_eq
is_new = ((λ e. ground arith), refl)

write_atomic-IsWhole_example :
    IsWhole config_path
      (new_file (codes "port=1") 0o600)
      old_disk
      (write_atomic stops config_path (codes "port=1") 0o600 old_disk)
    × (find hosts_path (write_atomic stops config_path (codes "port=1") 0o600 old_disk).0
        ≡ find hosts_path old_disk)
    × IsGone true stops.temporary (write_atomic stops config_path (codes "port=1") 0o600 old_disk).0
write_atomic-IsWhole_example =
    write_atomic-IsWhole stops config_path (codes "port=1") 0o600 old_disk hosts_path is_new
      (λ e. ground arith) (λ e. ground arith)

accepted_root : normalize_projects_root (codes "~/a/b") ≡ ok (codes "a/b")
unfolding normalize_projects_root trim_prefix has_prefix is_empty split_on contains_any
    contains_byte bytes_eq
accepted_root = refl

normalize_projects_root-IsPlainSegment_example :
    All IsPlainSegment (split_on b'/' (codes "a/b"))
    × (join (codes "/") (split_on b'/' (codes "a/b")) ≡ codes "a/b")
    × (clean_segments (codes "home" ∷ []) (split_on b'/' (codes "a/b"))
        ≡ reverse (split_on b'/' (codes "a/b")) ++ (codes "home" ∷ []))
    × (contains_any (codes "a/b") (b'\r' ∷ b'\n' ∷ 0 ∷ []) ≡ false)
    × (((codes "~/a/b" ≡ []) × (codes "a/b" ≡ codes "src"))
        ⊎ (codes "~/a/b" ≡ codes "~/" ++ codes "a/b"))
normalize_projects_root-IsPlainSegment_example =
    normalize_projects_root-IsPlainSegment (codes "~/a/b") (codes "a/b") (codes "home" ∷ [])
      accepted_root

cleaned_path : clean_rooted (codes "/home/../ann//./x") ≡ codes "/ann/x"
unfolding clean_rooted clean_segments split_on join is_empty bytes_eq
cleaned_path = refl
