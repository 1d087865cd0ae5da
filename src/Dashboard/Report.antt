-- ===== src/Dashboard/Report.antt =====
-- internal/dashboard/model.go and collector.go: the snapshot, and `parseRemoteReport`. The JSON decoder
-- and `strings.ToLower` are parameters: the one is a library, the other a table of Unicode.
pub mod Sorted
pub mod Described
pub mod Applied
pub mod Parsed
use otherhost.Base.{
  ℕ, Bool, true, false, not, ◌||◌, ◌&&◌, List, [], ◌∷◌, ◌++◌, Option, none, some, if◌then◌else◌,
  ◌==◌, Bytes, bytes_eq, codes, reverse, ℤ, pos,
}
use otherhost.Dashboard.Routes.{split_last}
use otherhost.Dashboard.Server.{Project}
use otherhost.Pairing.Names.{is_empty}
use otherhost.Text.Base64.{std_decode}
use otherhost.Text.Lines.{split_lines}
use otherhost.Text.Numbers.{int_or_nearest, uint_or_nearest}
use otherhost.Text.Order.{bytes_lt}
use otherhost.Text.Parts.{split_first, trim_prefix}
use otherhost.Text.{contains_byte, trim_space}

pub record DiskSpace : Type 0 where
  pub name : Bytes
  pub total : ℕ
  pub available : ℕ

pub record Cpu : Type 0 where
  pub model : Bytes
  pub physical_cores : ℤ
  pub logical_processors : ℤ

pub record Gpu : Type 0 where
  pub model : Bytes
  pub memory : ℕ

pub record Host : Type 0 where
  pub name : Bytes
  pub os : Bytes
  pub cpu : Cpu
  pub memory : ℕ
  pub gpu : Gpu
  pub disks : List DiskSpace

pub record Environment : Type 0 where
  pub distribution : Bytes
  pub kernel : Bytes
  pub processors : ℤ
  pub memory : ℕ
  pub memory_available : ℕ
  pub disk : DiskSpace

-- What a report fills of a `Snapshot`.
pub record Inventory : Type 0 where
  pub host : Host
  pub environment : Environment
  pub projects : List Project

pub record WindowsInventory : Type 0 where
  pub os_name : Bytes
  pub cpu_model : Bytes
  pub physical_cores : ℤ
  pub logical_processors : ℤ
  pub memory_bytes : ℕ
  pub gpu_model : Bytes
  pub gpu_memory_bytes : ℕ
  pub disks : List DiskSpace

abbrev pub no_disk : DiskSpace
no_disk = record { name = []; total = 0; available = 0 }

abbrev pub empty_inventory : Inventory
empty_inventory = record {
  host = record {
    name = [];
    os = [];
    cpu = record { model = []; physical_cores = pos 0; logical_processors = pos 0 };
    memory = 0;
    gpu = record { model = []; memory = 0 };
    disks = [];
  };
  environment = record {
    distribution = [];
    kernel = [];
    processors = pos 0;
    memory = 0;
    memory_available = 0;
    disk = no_disk;
  };
  projects = [];
}

-- The keys of the `switch`.
pub data ReportKey : Type 0 where
  host_name host_windows distribution kernel processors memory memory_available : ReportKey
  disk_total disk_available project_path project_branch project_technology other_key : ReportKey

abbrev pub key_names : List (Bytes × ReportKey)
key_names =
    (codes "host.name", host_name)
    ∷ (codes "host.windows", host_windows)
    ∷ (codes "environment.distribution", distribution)
    ∷ (codes "environment.kernel", kernel)
    ∷ (codes "environment.processors", processors)
    ∷ (codes "environment.memory", memory)
    ∷ (codes "environment.memory_available", memory_available)
    ∷ (codes "environment.disk_total", disk_total)
    ∷ (codes "environment.disk_available", disk_available)
    ∷ (codes "project.path", project_path)
    ∷ (codes "project.branch", project_branch)
    ∷ (codes "project.technology", project_technology)
    ∷ []

abbrev pub key_named : Bytes → List (Bytes × ReportKey) → ReportKey
key_named name [] = other_key
key_named name ((n, key) ∷ names) = if bytes_eq n name then key else key_named name names

-- `path.Base`
unfoldable pub drop_trailing : ℕ → Bytes → Bytes
drop_trailing x [] = []
drop_trailing x (c ∷ s) =
    let rest = drop_trailing x s in if c == x && is_empty rest then [] else c ∷ rest

abbrev pub last_part : Bytes → Option (Bytes × Bytes) → Bytes
last_part s none = s
last_part s (some (front, back)) = back

unfoldable pub path_base : Bytes → Bytes
unfolding drop_trailing
path_base value =
    let s = drop_trailing b'/' value in
    if is_empty value
    then codes "."
    else if is_empty s
    then codes "/"
    else last_part s (split_last b'/' s)

-- `currentProject` is the last project.
abbrev pub change_last : (Project → Project) → List Project → List Project
change_last f [] = []
change_last f (p ∷ []) = f p ∷ []
change_last f (p ∷ q ∷ projects) = p ∷ change_last f (q ∷ projects)

abbrev pub new_project : Bytes → Project
new_project path = record { name = path_base path; path = path; branch = []; technologies = [] }

abbrev pub with_branch : Bytes → Project → Project
with_branch value p = record p { branch = value }

abbrev pub with_technology : Bytes → Project → Project
with_technology value p =
    if is_empty value then p else record p { technologies = p.technologies ++ value ∷ [] }

abbrev pub with_windows : Host → Option WindowsInventory → Host
with_windows host none = host
with_windows host (some w) = record host {
  os = trim_space w.os_name;
  cpu = record {
    model = trim_space w.cpu_model;
    physical_cores = w.physical_cores;
    logical_processors = w.logical_processors;
  };
  memory = w.memory_bytes;
  gpu = record { model = trim_space w.gpu_model; memory = w.gpu_memory_bytes };
  disks = w.disks;
}

abbrev pub on_environment : (Environment → Environment) → Inventory → Inventory
on_environment f s = record s { environment = f s.environment }

module _ (unmarshal : Bytes → Option WindowsInventory) where
  -- The `switch` on the key of a line.
  unfoldable pub apply_entry : ReportKey → Bytes → Inventory → Inventory
  apply_entry host_name value s = record s { host = record s.host { name = value } }
  apply_entry host_windows value s = record s {
    host = with_windows s.host (unmarshal (trim_prefix value (0xef ∷ 0xbb ∷ 0xbf ∷ [])));
  }
  apply_entry distribution value s = on_environment (λ e. record e { distribution = value }) s
  apply_entry kernel value s = on_environment (λ e. record e { kernel = value }) s
  apply_entry processors value s =
      on_environment (λ e. record e { processors = int_or_nearest value }) s
  apply_entry memory value s = on_environment (λ e. record e { memory = uint_or_nearest value }) s
  apply_entry memory_available value s =
      on_environment (λ e. record e { memory_available = uint_or_nearest value }) s
  apply_entry disk_total value s =
      on_environment
        (λ e. record e {
          disk = record e.disk { name = codes "WSL"; total = uint_or_nearest value };
        })
        s
  apply_entry disk_available value s =
      on_environment (λ e. record e { disk = record e.disk { available = uint_or_nearest value } })
        s
  apply_entry project_path value s = record s { projects = s.projects ++ new_project value ∷ [] }
  apply_entry project_branch value s = record s {
    projects = change_last (with_branch value) s.projects;
  }
  apply_entry project_technology value s = record s {
    projects = change_last (with_technology value) s.projects;
  }
  apply_entry other_key value s = s

  abbrev pub apply_decoded : Bytes → Option Bytes → Inventory → Option Inventory
  apply_decoded key none s = none
  apply_decoded key (some value) s = some (apply_entry (key_named key key_names) value s)

  abbrev pub apply_parts : Option (Bytes × Bytes) → Inventory → Option Inventory
  apply_parts none s = none
  apply_parts (some (key, value)) s = apply_decoded key (std_decode (trim_space value)) s

  -- A pass of the loop; none for an error.
  unfoldable pub apply_line : Bytes → Inventory → Option Inventory
  unfolding apply_entry
  apply_line line s =
      if is_empty (trim_space line) then some s else apply_parts (split_first b'\t' line) s

  unfoldable pub apply_lines : List Bytes → Inventory → Option Inventory
  unfolding apply_line
  apply_lines [] s = some s
  apply_lines (line ∷ lines) s = elim (apply_line line s) [
    | none ↦ none
    | some next ↦ apply_lines lines next
  ]

-- `strings.Trim(report, "\r\n")`
abbrev pub is_line_end : ℕ → Bool
is_line_end c = c == b'\r' || c == b'\n'

abbrev pub drop_line_ends : Bytes → Bytes
drop_line_ends [] = []
drop_line_ends (c ∷ s) = if is_line_end c then drop_line_ends s else c ∷ s

abbrev pub trim_line_ends : Bytes → Bytes
trim_line_ends s = reverse (drop_line_ends (reverse (drop_line_ends s)))

abbrev pub or_remote_processor : Inventory → Inventory
or_remote_processor s =
    if is_empty s.host.cpu.model
    then record s {
      host = record s.host { cpu = record s.host.cpu { model = codes "Remote processor" } };
    }
    else s

module _ (to_lower : Bytes → Bytes) where
  unfoldable pub is_less : Project → Project → Bool
  is_less a b = bytes_lt (to_lower a.name) (to_lower b.name)

  -- `sort.Slice`, which leaves the order of equals open: one of its results.
  unfoldable pub insert_project : Project → List Project → List Project
  unfolding is_less
  insert_project p [] = p ∷ []
  insert_project p (q ∷ projects) =
      let rest = insert_project p projects in if is_less q p then q ∷ rest else p ∷ q ∷ projects

  unfoldable pub sort_projects : List Project → List Project
  unfolding insert_project
  sort_projects [] = []
  sort_projects (p ∷ projects) = insert_project p (sort_projects projects)

  abbrev pub finish_report : Option Inventory → Option Inventory
  finish_report none = none
  finish_report (some s) =
      let named = or_remote_processor s in
      some (record named { projects = sort_projects named.projects })

  unfoldable pub parse_remote_report : (Bytes → Option WindowsInventory) → Bytes → Option Inventory
  unfolding apply_lines sort_projects
  parse_remote_report unmarshal report =
      finish_report (apply_lines unmarshal (split_lines (trim_line_ends report)) empty_inventory)
