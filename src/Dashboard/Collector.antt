-- ===== src/Dashboard/Collector.antt =====
-- internal/dashboard/collector.go, project_delete.go and terminal.go: what the dashboard runs over ssh,
-- and what it makes of the ends of these commands. How a command ends is an argument.
pub mod Commands
pub mod Snapshots
use otherhost.Base.{
  ℕ, suc, Bool, true, false, not, List, [], ◌∷◌, ◌++◌, Option, none, some, if◌then◌else◌, Bytes,
  codes, ℤ, pos, Result, ok, err,
}
use otherhost.Dashboard.Config.{Config}
use otherhost.Dashboard.Report.{Inventory, WindowsInventory, empty_inventory, parse_remote_report}
use otherhost.Dashboard.Server.{TerminalSize}
use otherhost.Dashboard.Shell.{remote_terminal_command}
use otherhost.Dashboard.Terminals.{valid_terminal_size}
use otherhost.Pairing.Names.{is_empty}
use otherhost.Text.Base64.Padded.{std_encode}
use otherhost.Text.Decimal.{itoa}
use otherhost.Text.{trim_space}

abbrev pub option : Bytes → List Bytes → List Bytes
option value rest = codes "-o" ∷ value ∷ rest

abbrev pub known_hosts_option : Bytes → List Bytes
known_hosts_option path =
    if is_empty path then [] else option (codes "UserKnownHostsFile=" ++ path) []

unfoldable pub ssh_connection_arguments : Config → List Bytes
ssh_connection_arguments c =
    codes "-p"
    ∷ itoa c.ssh_port
    ∷ codes "-i"
    ∷ c.identity_file
    ∷ option (codes "IdentitiesOnly=yes") (
        option (codes "BatchMode=yes") (
          option (codes "StrictHostKeyChecking=yes") (
            option (codes "ConnectTimeout=5") (
              option (codes "ServerAliveInterval=5")
                (option (codes "ServerAliveCountMax=1") (known_hosts_option c.known_hosts_file))))))

unfoldable pub ssh_target : Config → Bytes
ssh_target c = c.ssh_user ++ b'@' ∷ c.host

unfoldable pub ssh_arguments : Config → List Bytes
ssh_arguments c = ssh_connection_arguments c ++ ssh_target c ∷ codes "bash -s" ∷ []

pub data Status : Type 0 where
  connected unavailable : Status

pub record Snapshot : Type 0 where
  pub status : Status
  pub message : Bytes
  pub inventory : Inventory
  pub response_ms : ℕ

-- How `command.Run` ends: with its output, or with an error, what stands on its standard error, and
-- whether its time was over.
pub data RunEnd : Type 0 where
  finished : Bytes → RunEnd
  failed : Bytes → Bool → RunEnd

abbrev pub named_inventory : Bytes → Inventory
named_inventory name = record empty_inventory { host = record empty_inventory.host { name = name } }

abbrev pub unavailable_snapshot : Config → Bytes → Snapshot
unavailable_snapshot c message = record {
  status = unavailable;
  message = message;
  inventory = named_inventory c.name;
  response_ms = 0;
}

abbrev pub failure_message : Bytes → Bool → Bytes
failure_message message timed_out =
    if not (is_empty message)
    then message
    else if timed_out
    then codes "The remote host did not respond in time."
    else codes "The remote host is unavailable."

abbrev pub with_host_name : Bytes → Inventory → Inventory
with_host_name name s =
    if is_empty s.host.name then record s { host = record s.host { name = name } } else s

abbrev pub snapshot_of : Config → ℕ → Option Inventory → Snapshot
snapshot_of c elapsed none =
    unavailable_snapshot c (codes "The host returned an unreadable inventory response.")
snapshot_of c elapsed (some s) = record {
  status = connected;
  message = [];
  inventory = with_host_name c.name s;
  response_ms = elapsed;
}

-- `Collect`, with the milliseconds since its start; the time of the snapshot is left out.
unfoldable pub collect :
    (Bytes → Bytes) → (Bytes → Option WindowsInventory) → Config → ℕ → RunEnd → Snapshot
collect to_lower unmarshal c elapsed (failed standard_error timed_out) =
    unavailable_snapshot c (failure_message (trim_space standard_error) timed_out)
collect to_lower unmarshal c elapsed (finished output) =
    snapshot_of c elapsed (parse_remote_report to_lower unmarshal output)

-- The script in front of the encoded path, and behind it.
abbrev pub deletion_front : Bytes
deletion_front =
    codes "set -eu\n"
    ++ codes "fail() {\n"
    ++ codes "  printf '%s\\n' \"$1\" >&2\n"
    ++ codes "  exit 1\n"
    ++ codes "}\n"
    ++ codes "project=$(printf '%s' '"

abbrev pub deletion_back : Bytes
deletion_back =
    codes "' | base64 -d) || fail 'Could not decode the project path.'\n"
    ++ codes "[ -n \"$project\" ] || fail 'The project path is empty.'\n"
    ++ codes "[ -d \"$project\" ] || fail 'The project no longer exists.'\n"
    ++ codes
        "home=$(cd -P -- \"$HOME\" 2>/dev/null && pwd -P) || fail 'Could not resolve the WSL home directory.'\n"
    ++ codes
        "resolved=$(cd -P -- \"$project\" 2>/dev/null && pwd -P) || fail 'Could not resolve the project directory.'\n"
    ++ codes "case \"$resolved\" in\n"
    ++ codes "  \"$home\"/*) ;;\n"
    ++ codes "  *) fail 'The project is outside the WSL home directory.' ;;\n"
    ++ codes "esac\n"
    ++ codes
        "[ -d \"$resolved/.git\" ] && [ ! -L \"$resolved/.git\" ] || fail 'The path is not a primary Git checkout.'\n"
    ++ codes "if command -v mountpoint >/dev/null 2>&1 && mountpoint -q -- \"$resolved\"; then\n"
    ++ codes "  fail 'A mounted directory cannot be deleted as a project.'\n"
    ++ codes "fi\n"
    ++ codes "cd -- \"$home\"\n"
    ++ codes "rm -rf -- \"$resolved\"\n"
    ++ codes "if [ -e \"$resolved\" ] || [ -L \"$resolved\" ]; then\n"
    ++ codes "  fail 'The project directory could not be removed completely.'\n"
    ++ codes "fi"

unfoldable pub remote_project_deletion_command : Bytes → Bytes
remote_project_deletion_command project_path =
    deletion_front ++ (std_encode project_path ++ deletion_back)

unfoldable pub deletion_arguments : Config → Bytes → List Bytes
deletion_arguments c project_path =
    ssh_connection_arguments c ++ ssh_target c ∷ remote_project_deletion_command project_path ∷ []

pub data DeletionFault : Type 0 where
  not_installed timed_out : DeletionFault
  deletion_failed : Bytes → DeletionFault

abbrev pub deletion_message : Bytes → Bytes
deletion_message message =
    if is_empty message then codes "the remote host could not delete the project" else message

-- `DeleteProject`: whether ssh is installed, and the end of the command, with its whole output.
unfoldable pub delete_result : Bool → RunEnd → Option DeletionFault
delete_result false run = some not_installed
delete_result true (finished output) = none
delete_result true (failed output is_late) =
    if is_late
    then some timed_out
    else some (deletion_failed (deletion_message (trim_space output)))

unfoldable pub terminal_arguments : Config → Bytes → List Bytes
terminal_arguments c project_path =
    ssh_connection_arguments c
    ++ codes "-tt" ∷ ssh_target c ∷ remote_terminal_command project_path ∷ []

pub data StartFault : Type 0 where
  ssh_not_installed invalid_size not_started not_initialized : StartFault

-- `StartTerminal`: whether ssh is installed, the terminal starts, and its first input is written.
unfoldable pub start_result : Bool → TerminalSize → Bool → Bool → Option StartFault
start_result installed size starts initializes =
    if not installed
    then some ssh_not_installed
    else if not (valid_terminal_size size)
    then some invalid_size
    else if not starts
    then some not_started
    else if not initializes
    then some not_initialized
    else none

-- `sshTerminal`: whether it was closed, whether its process has ended, and how often it was killed.
pub record SshTerminal : Type 0 where
  pub closed : Bool
  pub done : Bool
  pub kills : ℕ

unfoldable pub close_terminal : SshTerminal → SshTerminal
close_terminal t =
    if t.closed
    then t
    else if t.done
    then record t { closed = true }
    else record t { closed = true; kills = suc t.kills }
