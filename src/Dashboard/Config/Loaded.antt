-- ===== src/Dashboard/Config/Loaded.antt =====
-- A pairing that `SaveClientConfiguration` saves (internal/pairing/config.go), as `LoadConfig` loads it.
use otherhost.Base.{
  or_blank, ℕ, ◌≡◌, ◌≢◌, refl, sym, ap, ◌∙◌, inl, inr, true, false, List, [], ◌∷◌, Option, none,
  some, arith, Bytes, All, Bool-cases, all, bytes_eq, bytes_eq_iff, codes, find, ℤ, pos, negsuc, ok,
  err, if◌then◌else◌, subst,
}
use otherhost.Dashboard.Config.Checked.{IsChecked, save_client_configuration-IsChecked}
use otherhost.Dashboard.Config.Paired.{IsTrimmed, read_values-other, read_values-saved}
use otherhost.Dashboard.Config.Updated.{first_value}
use otherhost.Dashboard.Config.{
  Config, bad_name, config_of, load_config, normalize_projects_root, portable_value, read_values,
  resolve_home_path, scan_lines,
}
use otherhost.Pairing.Config.Saving.{AreApart, IsSaved, save_client_configuration-IsSaved}
use otherhost.Pairing.Config.{
  SaveOutcomes, devbox_name, save_client_configuration, saved_settings, text_at, updated_text,
}
use otherhost.Pairing.Files.{Disk}
use otherhost.Pairing.Messages.{PairResult}
use otherhost.Pairing.Names.{is_allowed, is_alphanumeric, is_empty, net_host_invalid, valid_port}
use otherhost.Text.Decimal.{itoa}
use otherhost.Text.Lines.{split_lines}
use otherhost.Text.Numbers.{atoi, atoi-itoa}
use otherhost.Text.Trim.Kept.{trim_space-All}
use otherhost.Text.{IsVisible, contains_byte, trim_space}

all-IsVisible :
    (set s : Bytes)
    → ((c : ℕ) → is_allowed set c ≡ true → IsVisible c)
    → all (is_allowed set) s ≡ true
    → All IsVisible s
all-IsVisible set [] f h = tt
all-IsVisible set (c ∷ s) f h = ground (arith, f c, all-IsVisible set s f)

portable-IsVisible : (c : ℕ) → is_allowed (codes "._-") c ≡ true → IsVisible c
unfolding is_allowed is_alphanumeric contains_byte
portable-IsVisible c h = ground arith

host-IsVisible : (c : ℕ) → is_allowed (codes ".:-") c ≡ true → IsVisible c
unfolding is_allowed is_alphanumeric contains_byte
host-IsVisible c h = ground arith

portable_value-trimmed :
    (set s : Bytes)
    → ((c : ℕ) → is_allowed set c ≡ true → IsVisible c)
    → portable_value s set ≡ true
    → trim_space s ≡ s
unfolding portable_value
portable_value-trimmed set s f h = trim_space-All s (all-IsVisible set s f (ground arith))

portable_host : (s : Bytes) → net_host_invalid s ≡ false → portable_value s (codes ".:-") ≡ true
unfolding portable_value net_host_invalid
portable_host s h = ground arith

-- No host that is accepted is the placeholder.
host_changed : (s : Bytes) → net_host_invalid s ≡ false → bytes_eq s (codes "CHANGE_ME") ≡ false
unfolding net_host_invalid is_allowed is_alphanumeric contains_byte
host_changed s h = elim (Bool-cases (bytes_eq s (codes "CHANGE_ME"))) [
  | inl e ↦
      let q = ap net_host_invalid ((bytes_eq_iff s (codes "CHANGE_ME")).0 e) in
      absurd (ground (arith, q))
  | inr e ↦ e
]

atoi-valid_port : (port : ℤ) → valid_port port ≡ true → atoi (itoa port) ≡ some port
unfolding valid_port
atoi-valid_port (pos n) h = atoi-itoa n (ground arith) (ground arith)
atoi-valid_port (negsuc n) h = absurd (ground arith)

-- The configuration of a paired device.
abbrev pub paired_config : Option Bytes → PairResult → Bytes → Bytes → Bytes → Config
paired_config home result hosts identity root = record {
  name = result.otherhost_name;
  host = result.host;
  ssh_user = result.ssh_user;
  ssh_port = result.ssh_port;
  identity_file = resolve_home_path home identity;
  known_hosts_file = resolve_home_path home hosts;
  projects_root = root;
}

abbrev pub value_or_blank : Bytes → Bytes → Bytes
value_or_blank key text = or_blank (first_value key (split_lines text))

config_of-values :
    (home : Option Bytes) (values : List (Bytes × Bytes)) (result : PairResult)
    (hosts identity root_value root : Bytes)
    → find (codes "otherhost_name") values ≡ some result.otherhost_name
    → find (codes "host") values ≡ some result.host
    → find (codes "ssh_user") values ≡ some result.ssh_user
    → find (codes "ssh_port") values ≡ some (itoa result.ssh_port)
    → find (codes "known_hosts_file") values ≡ some hosts
    → or_blank (find (codes "identity_file") values) ≡ identity
    → or_blank (find (codes "projects_root") values) ≡ root_value
    → normalize_projects_root root_value ≡ ok root
    → is_empty (resolve_home_path home identity) ≡ false
    → is_empty result.otherhost_name ≡ false
    → portable_value result.host (codes ".:-") ≡ true
    → bytes_eq result.host (codes "CHANGE_ME") ≡ false
    → portable_value result.ssh_user (codes "._-") ≡ true
    → bytes_eq result.ssh_user (codes "CHANGE_ME") ≡ false
    → valid_port result.ssh_port ≡ true
    → config_of home values ≡ (
        if portable_value result.otherhost_name (codes "._-")
        then ok (paired_config home result hosts identity root)
        else err bad_name)
unfolding config_of
config_of-values home values result hosts identity root_value root fn fh fu fp fk fi fr r i n h hc u
      uc p =
    let parsed = atoi-valid_port result.ssh_port p in
    rw (fn, fh, fu, fp, fk, fi, fr, parsed, p, r, i, n, h, hc, u, uc)
      elim (Bool-cases (portable_value result.otherhost_name (codes "._-"))) [
        | inl e ↦ rw e refl
        | inr e ↦ rw e refl
      ]

-- The settings of a text that a pairing is saved over.
pub record IsReady (home : Option Bytes) (text identity root : Bytes) : Type 0 where
  pub identity_value : value_or_blank (codes "identity_file") text ≡ identity
  pub identity_given : is_empty (resolve_home_path home identity) ≡ false
  pub root_accepted :
      normalize_projects_root (value_or_blank (codes "projects_root") text) ≡ ok root

-- A result whose name has no white space around it, with a user that was filled in.
pub record IsNamed (hosts : Bytes) (result : PairResult) : Type 0 where
  pub name_given : is_empty result.otherhost_name ≡ false
  pub name_trimmed : trim_space result.otherhost_name ≡ result.otherhost_name
  pub user_portable : portable_value result.ssh_user (codes "._-") ≡ true
  pub user_changed : bytes_eq result.ssh_user (codes "CHANGE_ME") ≡ false
  pub hosts_trimmed : trim_space hosts ≡ hosts

bytes_ne : (a b : Bytes) → bytes_eq a b ≡ false → a ≢ b
bytes_ne a b h e = ground (arith, (bytes_eq_iff a b).1 e)

load_config-updated :
    (home : Option Bytes) (text content hosts identity root : Bytes) (result : PairResult)
    (lines : List Bytes)
    → text ≡ updated_text (saved_settings hosts result) content
    → IsChecked hosts result ([], none)
    → IsNamed hosts result
    → IsReady home content identity root
    → scan_lines text ≡ some lines
    → load_config home true (some text) ≡ (
        if portable_value result.otherhost_name (codes "._-")
        then ok (paired_config home result hosts identity root)
        else err bad_name)
unfolding load_config bytes_eq
load_config-updated home text content hosts identity root result lines t (h, i, p) n r s =
    let trimmed : IsTrimmed hosts result = record {
      name = n.name_trimmed;
      host =
          portable_value-trimmed (codes ".:-") result.host host-IsVisible
            (portable_host result.host h);
      user =
          portable_value-trimmed (codes "._-") result.ssh_user portable-IsVisible n.user_portable;
      hosts_path = n.hosts_trimmed;
    } in
    let scans = ap scan_lines (sym t) ∙ s in
    let saved = read_values-saved hosts content result lines trimmed i scans in
    let other = read_values-other hosts content result lines trimmed i scans in
    rw s (
      config_of-values home (read_values [] lines) result hosts identity
        (value_or_blank (codes "projects_root") content) root
        (saved (codes "otherhost_name") result.otherhost_name refl refl
          (bytes_ne (codes "otherhost_name") devbox_name refl))
        (saved (codes "host") result.host refl refl (bytes_ne (codes "host") devbox_name refl))
        (saved (codes "ssh_user") result.ssh_user refl refl
          (bytes_ne (codes "ssh_user") devbox_name refl))
        (saved (codes "ssh_port") (itoa result.ssh_port) refl refl
          (bytes_ne (codes "ssh_port") devbox_name refl))
        (saved (codes "known_hosts_file") hosts refl refl
          (bytes_ne (codes "known_hosts_file") devbox_name refl))
        (ap or_blank (
            other (codes "identity_file") refl refl
              (bytes_ne (codes "identity_file") devbox_name refl))
          ∙ r.identity_value)
        (ap or_blank (
          other (codes "projects_root") refl refl
            (bytes_ne (codes "projects_root") devbox_name refl)))
        r.root_accepted r.identity_given n.name_given (portable_host result.host h)
        (host_changed result.host h) n.user_portable n.user_changed p)

-- What the dashboard loads from the configuration file in which a paired device was saved, whatever
-- stood in the file before: the name, host, user, port and known-hosts file of the pairing, with the
-- identity and the projects that the file had. But a name with a space, which a pairing accepts, is
-- refused. Conditions: the files have different names, the file had an identity and an acceptable
-- projects root and has no line of 64 KiB, and the name and the path are trimmed and the user filled in.
pub load_config-saved :
    (io : SaveOutcomes) (config hosts : Bytes) (result : PairResult) (before after : Disk)
    (home : Option Bytes) (identity root : Bytes) (lines : List Bytes)
    → AreApart io config hosts
    → save_client_configuration io config hosts result before ≡ (after, none)
    → IsNamed hosts result
    → IsReady home (text_at (find config before)) identity root
    → scan_lines (text_at (find config after)) ≡ some lines
    → load_config home true (some (text_at (find config after))) ≡ (
        if portable_value result.otherhost_name (codes "._-")
        then ok (paired_config home result hosts identity root)
        else err bad_name)
load_config-saved io config hosts result before after home identity root lines a e n r s =
    let (line, k, h, c) =
      subst (IsSaved config hosts result before) e
        (save_client_configuration-IsSaved io config hosts result before a) in
    load_config-updated home (text_at (find config after)) (text_at (find config before)) hosts
      identity root result lines (ap text_at c)
      (subst (IsChecked hosts result) e
        (save_client_configuration-IsChecked io config hosts result before))
      n r s
