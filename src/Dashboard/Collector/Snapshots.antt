-- ===== src/Dashboard/Collector/Snapshots.antt =====
-- The answers of the collector.
use otherhost.Base.{◌≡◌, true, false, [], Option, none, some, All, Bytes}
use otherhost.Dashboard.Collector.{RunEnd, Snapshot, connected, failed, finished, unavailable}
use otherhost.Dashboard.Config.{Config}
use otherhost.Dashboard.Report.Parsed.{IsListed}
use otherhost.Dashboard.Report.Sorted.{IsSorted}
use otherhost.Dashboard.Report.{Inventory, WindowsInventory, parse_remote_report}
use otherhost.Pairing.Names.{is_empty}
use otherhost.Text.{trim_space}

-- An unavailable host: a message, the configured name and no projects.
pub record IsUnavailable (c : Config) (s : Snapshot) : Type 0 where
  pub status_unavailable : s.status ≡ unavailable
  pub explained : is_empty s.message ≡ false
  pub host_named : s.inventory.host.name ≡ c.name
  pub no_projects : s.inventory.projects ≡ []

-- A connected host: the report that was read, but for a host name that it lacks.
pub record IsConnected (to_lower : Bytes → Bytes) (c : Config) (read : Inventory) (s : Snapshot)
    : Type 0 where
  pub status_connected : s.status ≡ connected
  pub no_message : s.message ≡ []
  pub name_given : is_empty read.host.name ≡ false → s.inventory ≡ read
  pub name_missing : is_empty read.host.name ≡ true → s.inventory.host.name ≡ c.name
  pub projects_read : s.inventory.projects ≡ read.projects
  pub environment_read : s.inventory.environment ≡ read.environment
  pub sorted : IsSorted to_lower s.inventory.projects
  pub listed : All IsListed s.inventory.projects

abbrev pub AnswersReport : (Bytes → Bytes) → Config → Option Inventory → Snapshot → Type 0
AnswersReport to_lower c none s = IsUnavailable c s
AnswersReport to_lower c (some read) s = IsConnected to_lower c read s

-- The answer to each end of the command.
abbrev pub IsAnswer :
    (Bytes → Bytes) → (Bytes → Option WindowsInventory) → Config → RunEnd → Snapshot → Type 0
IsAnswer to_lower unmarshal c (failed standard_error timed_out) s =
    IsUnavailable c s
    × (is_empty (trim_space standard_error) ≡ false → s.message ≡ trim_space standard_error)
IsAnswer to_lower unmarshal c (finished output) s =
    AnswersReport to_lower c (parse_remote_report to_lower unmarshal output) s
