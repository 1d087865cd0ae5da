-- ===== src/Tests/Reports.antt =====
-- A report of two projects, its snapshot, and a command for a path with quotes.
use otherhost.Base.{
  ◌≡◌, refl, List, [], ◌∷◌, ◌++◌, Option, none, some, arith, All, Bytes, bytes_eq, codes, pos, take,
  drop,
}
use otherhost.Dashboard.Collector.Commands.{remote_project_deletion_command-reads_path, word_offset}
use otherhost.Dashboard.Collector.{deletion_back, deletion_front, remote_project_deletion_command}
use otherhost.Dashboard.Config.{Config}
use otherhost.Dashboard.Report.Described.{described_projects, projects_of}
use otherhost.Dashboard.Report.Parsed.{IsReport, parse_remote_report-IsReport}
use otherhost.Dashboard.Report.{
  WindowsInventory, apply_line, apply_lines, apply_entry, parse_remote_report, path_base,
  sort_projects, is_less, insert_project, trim_line_ends,
}
use otherhost.Dashboard.Routes.{split_last}
use otherhost.Dashboard.Server.{Project}
use otherhost.Dashboard.Shell.{plain, read_word}
use otherhost.Pairing.Names.{is_empty}
use otherhost.Text.Base64.Padded.{IsBase64, std_encode}
use otherhost.Text.Base64.{std_decode}
use otherhost.Text.Lines.{split_lines}
use otherhost.Text.Order.{bytes_lt}
use otherhost.Text.Parts.{split_first}
use otherhost.Text.{space_width, trim_space}

abbrev report : Bytes
report =
    codes "host.name\tcGM=\n"
    ++ codes "project.path\tL2gvenp6\nproject.branch\tbWFpbg==\nproject.technology\tR28=\r\n"
    ++ codes "project.path\tL2gvYWEv\nodd\t\n"

abbrev no_json : Bytes → Option WindowsInventory
no_json s = none

abbrev same_case : Bytes → Bytes
same_case s = s

abbrev read_projects : List Project
read_projects =
    record { name = codes "aa"; path = codes "/h/aa/"; branch = []; technologies = [] }
    ∷ record {
      name = codes "zzz";
      path = codes "/h/zzz";
      branch = codes "main";
      technologies = codes "Go" ∷ [];
    }
    ∷ []

report_read : projects_of (parse_remote_report same_case no_json report) ≡ some read_projects
unfolding parse_remote_report apply_lines apply_line apply_entry sort_projects is_less
    insert_project path_base split_last is_empty std_decode split_lines bytes_lt split_first
    space_width trim_space bytes_eq
report_read = refl

bad_report : parse_remote_report same_case no_json (codes "host.name\tcGM=\nproject.path /h") ≡ none
unfolding parse_remote_report apply_lines apply_line apply_entry is_empty std_decode split_lines
    split_first space_width trim_space bytes_eq
bad_report = refl

parse_remote_report-IsReport_example :
    IsReport same_case
      (described_projects (split_lines (trim_line_ends report)))
      (parse_remote_report same_case no_json report)
parse_remote_report-IsReport_example = parse_remote_report-IsReport same_case no_json report

abbrev settings : Config
settings = record {
  name = codes "pc";
  host = codes "10.0.0.7";
  ssh_user = codes "ann";
  ssh_port = pos 22;
  identity_file = codes "/id";
  known_hosts_file = codes "/h";
  projects_root = codes "src";
}

abbrev quoted_path : Bytes
quoted_path = codes "/h/a';rm"

remote_project_deletion_command-reads_path_example :
    (take word_offset (remote_project_deletion_command quoted_path)
      ≡ take word_offset deletion_front)
    × (read_word plain (drop word_offset (remote_project_deletion_command quoted_path))
        ≡ some (std_encode quoted_path, drop 1 deletion_back))
    × All IsBase64 (std_encode quoted_path)
    × (std_decode (std_encode quoted_path) ≡ some quoted_path)
remote_project_deletion_command-reads_path_example =
    remote_project_deletion_command-reads_path quoted_path (
      omega arith,
      (
        omega arith,
        (
          omega arith,
          (omega arith, (omega arith, (omega arith, (omega arith, (omega arith, tt))))),
        ),
      ),
    )
