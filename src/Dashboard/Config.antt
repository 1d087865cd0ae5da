-- ===== src/Dashboard/Config.antt =====
-- internal/dashboard/config.go: `LoadConfig`, on a system where paths are separated by `/`. The file's
-- text, how its reading ends and the user's home directory are arguments.
pub mod Entries
pub mod Updated
pub mod Kept
pub mod Saved
pub mod Paired
pub mod Checked
pub mod Loaded
pub mod Roots
use otherhost.Base.{
  ℕ, Bool, true, false, not, ◌&&◌, ◌||◌, List, [], ◌∷◌, ◌++◌, Option, none, some, if◌then◌else◌,
  leb, Bytes, codes, bytes_eq, any, all, find, has, insert, length, or_blank, reverse, ℤ, Result,
  ok, err, ◌>>=◌, ◌>>◌, refuse_if, or_err, drop,
}
use otherhost.Pairing.Names.{is_allowed, is_empty, valid_port}
use otherhost.Text.Lines.{split_lines}
use otherhost.Text.Numbers.{atoi}
use otherhost.Text.Parts.{join, split_first, split_on, trim_prefix}
use otherhost.Text.{contains_any, has_prefix, trim_space, trim_suffix_byte}

pub record Config : Type 0 where
  pub name : Bytes
  pub host : Bytes
  pub ssh_user : Bytes
  pub ssh_port : ℤ
  pub identity_file : Bytes
  pub known_hosts_file : Bytes
  pub projects_root : Bytes

pub data ConfigFault : Type 0 where
  not_opened not_read : ConfigFault
  bad_port bad_root bad_name bad_host bad_user no_identity : ConfigFault

-- The lines of a `bufio.Scanner`, without their line ends. A line that fills its buffer of 64 KiB is an
-- error.
abbrev pub drop_last_blank : List Bytes → List Bytes
drop_last_blank [] = []
drop_last_blank ([] ∷ []) = []
drop_last_blank (line ∷ lines) = line ∷ drop_last_blank lines

abbrev pub drop_returns : List Bytes → List Bytes
drop_returns [] = []
drop_returns (line ∷ lines) = trim_suffix_byte b'\r' line ∷ drop_returns lines

unfoldable pub scan_lines : Bytes → Option (List Bytes)
scan_lines text =
    let lines = split_lines text in
    if any (λ line. leb 65536 (length line)) lines
    then none
    else some (drop_returns (drop_last_blank lines))

-- The key and the value of a trimmed line.
abbrev pub setting_at : Option (Bytes × Bytes) → Option (Bytes × Bytes)
setting_at none = none
setting_at (some (front, back)) =
    if is_empty front then none else some (trim_space front, trim_space back)

unfoldable pub setting_of : Bytes → Option (Bytes × Bytes)
setting_of line =
    if is_empty line || has_prefix line (codes "#")
    then none
    else setting_at (split_first b'=' line)

abbrev pub add_setting : Option (Bytes × Bytes) → List (Bytes × Bytes) → List (Bytes × Bytes)
add_setting none values = values
add_setting (some (key, value)) values = if has key values then values else insert key value values

-- The loop over the lines: the first value of a key stands.
unfoldable pub read_values : List (Bytes × Bytes) → List Bytes → List (Bytes × Bytes)
unfolding setting_of
read_values values [] = values
read_values values (line ∷ lines) =
    read_values (add_setting (setting_of (trim_space (trim_suffix_byte b'\r' line))) values) lines

unfoldable pub portable_value : Bytes → Bytes → Bool
portable_value value punctuation = not (is_empty value) && all (is_allowed punctuation) value

abbrev pub is_odd_segment : Bytes → Bool
is_odd_segment segment =
    is_empty segment || (bytes_eq segment (codes ".") || bytes_eq segment (codes ".."))

unfoldable pub normalize_projects_root : Bytes → Result ConfigFault Bytes
normalize_projects_root value =
    let relative = trim_prefix value (codes "~/") in
    if is_empty value
    then ok (codes "src")
    else if not (has_prefix value (codes "~/"))
    then err bad_root
    else if is_empty relative || contains_any relative (b'\r' ∷ b'\n' ∷ 0 ∷ [])
    then err bad_root
    else if any is_odd_segment (split_on b'/' relative)
    then err bad_root
    else ok relative

-- `filepath.Clean` of a path that begins with `/`: the segments, the last one first.
unfoldable pub clean_segments : List Bytes → List Bytes → List Bytes
clean_segments out [] = out
clean_segments out (segment ∷ segments) =
    if is_empty segment || bytes_eq segment (codes ".")
    then clean_segments out segments
    else if bytes_eq segment (codes "..")
    then clean_segments (drop 1 out) segments
    else clean_segments (segment ∷ out) segments

unfoldable pub clean_rooted : Bytes → Bytes
unfolding clean_segments
clean_rooted path = b'/' ∷ join (codes "/") (reverse (clean_segments [] (split_on b'/' path)))

-- A home directory, where the system tells one, begins with `/`.
abbrev pub in_home : Bytes → Option Bytes → Bytes
in_home value none = value
in_home value (some home) = clean_rooted (home ++ b'/' ∷ value)

unfoldable pub resolve_home_path : Option Bytes → Bytes → Bytes
resolve_home_path home value =
    if is_empty value || has_prefix value (codes "/") then value else in_home value home

abbrev pub name_of : List (Bytes × Bytes) → Bytes
name_of values =
    let name = or_blank (find (codes "otherhost_name") values) in
    if is_empty name then or_blank (find (codes "devbox_name") values) else name

-- `LoadConfig` behind its loop.
unfoldable pub config_of : Option Bytes → List (Bytes × Bytes) → Result ConfigFault Config
config_of home values = do
  port ← or_err (atoi (or_blank (find (codes "ssh_port") values))) bad_port
  refuse_if (not (valid_port port)) bad_port
  root ← normalize_projects_root (or_blank (find (codes "projects_root") values))
  let host = or_blank (find (codes "host") values)
  let user = or_blank (find (codes "ssh_user") values)
  let identity = resolve_home_path home (or_blank (find (codes "identity_file") values))
  refuse_if (not (portable_value (name_of values) (codes "._-"))) bad_name
  refuse_if (not (portable_value host (codes ".:-")) || bytes_eq host (codes "CHANGE_ME")) bad_host
  refuse_if (not (portable_value user (codes "._-")) || bytes_eq user (codes "CHANGE_ME")) bad_user
  refuse_if (is_empty identity) no_identity
  ok (record {
    name = name_of values;
    host = host;
    ssh_user = user;
    ssh_port = port;
    identity_file = identity;
    known_hosts_file = resolve_home_path home (or_blank (find (codes "known_hosts_file") values));
    projects_root = root;
  })

-- Whether the scanner meets no read error.
unfoldable pub load_config : Option Bytes → Bool → Option Bytes → Result ConfigFault Config
load_config home reads file = do
  text ← or_err file not_opened
  lines ← or_err (scan_lines text) not_read
  refuse_if (not reads) not_read
  config_of home (read_values [] lines)
