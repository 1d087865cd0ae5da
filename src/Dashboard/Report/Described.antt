-- ===== src/Dashboard/Report/Described.antt =====
-- The projects that the lines of a report describe, read without a state: each path line begins a project,
-- and the lines behind it, up to the next path line, belong to it.
use otherhost.Base.{List, [], ◌∷◌, Option, none, some, Bytes, bytes_eq, codes, if◌then◌else◌}
use otherhost.Dashboard.Report.{Inventory, path_base}
use otherhost.Dashboard.Server.{Project}
use otherhost.Pairing.Names.{is_empty}
use otherhost.Text.Base64.{std_decode}
use otherhost.Text.Parts.{split_first}
use otherhost.Text.{trim_space}

-- What stands behind a path line, and the projects behind that.
pub record Described : Type 0 where
  pub branch : Option Bytes
  pub technologies : List Bytes
  pub projects : List Project

abbrev pub or_last : Bytes → Option Bytes → Bytes
or_last earlier none = earlier
or_last earlier (some later) = later

abbrev pub add_given : Bytes → List Bytes → List Bytes
add_given value rest = if is_empty value then rest else value ∷ rest

-- One entry in front of what was described; the last branch counts, and blank technologies do not.
abbrev pub describe_entry : Bytes → Bytes → Described → Described
describe_entry key value d =
    if bytes_eq (codes "project.path") key
    then record {
      branch = none;
      technologies = [];
      projects =
          record {
            name = path_base value;
            path = value;
            branch = or_last [] d.branch;
            technologies = d.technologies;
          }
          ∷ d.projects;
    }
    else if bytes_eq (codes "project.branch") key
    then record d { branch = some (or_last value d.branch) }
    else if bytes_eq (codes "project.technology") key
    then record d { technologies = add_given value d.technologies }
    else d

abbrev pub describe_decoded : Bytes → Option Bytes → Described → Option Described
describe_decoded key none d = none
describe_decoded key (some value) d = some (describe_entry key value d)

abbrev pub describe_parts : Option (Bytes × Bytes) → Described → Option Described
describe_parts none d = none
describe_parts (some (key, value)) d = describe_decoded key (std_decode (trim_space value)) d

abbrev pub describe_line : Bytes → Described → Option Described
describe_line line d =
    if is_empty (trim_space line) then some d else describe_parts (split_first b'\t' line) d

abbrev pub describe_before : Bytes → Option Described → Option Described
describe_before line none = none
describe_before line (some d) = describe_line line d

-- The description of all lines; none if one of them is not blank and has no tab, or no base64 behind it.
unfoldable pub describe_lines : List Bytes → Option Described
describe_lines [] = some (record { branch = none; technologies = []; projects = [] })
describe_lines (line ∷ lines) = describe_before line (describe_lines lines)

unfoldable pub described_projects : List Bytes → Option (List Project)
unfolding describe_lines
described_projects lines = elim (describe_lines lines) [ none ↦ none | some d ↦ some d.projects ]

abbrev pub projects_of : Option Inventory → Option (List Project)
projects_of none = none
projects_of (some s) = some s.projects
