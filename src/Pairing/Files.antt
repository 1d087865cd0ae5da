-- ===== src/Pairing/Files.antt =====
-- internal/pairing/config.go: `writeAtomic`, on a disk that maps paths to files. The outcome of each
-- system call is an input, and so is the name that is drawn for the temporary file.
pub mod Atomic
use otherhost.Base.{
  ℕ, Bool, true, false, not, List, [], Option, none, some, if◌then◌else◌, Bytes, delete, find,
  insert,
}
use otherhost.Pairing.Install.{written}

pub record StoredFile : Type 0 where
  pub text : Bytes
  pub mode : ℕ

abbrev pub Disk : Type 0
Disk = List (Bytes × StoredFile)

-- Whether each call succeeds: for the temporary file its name, for the write none, or the bytes that
-- it wrote before an error. `removes` tells whether the deferred removal happens.
pub record WriteOutcomes : Type 0 where
  pub makes_directory : Bool
  pub temporary : Option Bytes
  pub changes_mode : Bool
  pub write : Option ℕ
  pub syncs : Bool
  pub closes : Bool
  pub renames : Bool
  pub removes : Bool

pub data FileFault : Type 0 where
  directory_fault create_fault mode_fault write_fault sync_fault close_fault rename_fault :
      FileFault
  read_fault invalid_setting : FileFault

abbrev pub new_file : Bytes → ℕ → StoredFile
new_file text mode = record { text = text; mode = mode }

-- `writeAtomic` between its write and its return.
abbrev pub after_write :
    WriteOutcomes → Bytes → Bytes → ℕ → Disk → Bytes × Bool → Disk × Option FileFault
after_write io temp path mode disk (text, false) =
    (insert temp (new_file text mode) disk, some write_fault)
after_write io temp path mode disk (text, true) =
    let full = insert temp (new_file text mode) disk in
    if not io.syncs
    then (full, some sync_fault)
    else if not io.closes
    then (full, some close_fault)
    else if not io.renames
    then (full, some rename_fault)
    else (insert path (new_file text mode) (delete temp full), none)

-- `writeAtomic` behind the creation of its temporary file, up to the deferred removal.
unfoldable pub fill_temporary :
    WriteOutcomes → Bytes → Bytes → Bytes → ℕ → Disk → Disk × Option FileFault
fill_temporary io temp path content mode disk =
    if not io.changes_mode
    then (insert temp (new_file [] 0o600) disk, some mode_fault)
    else after_write io temp path mode disk (written [] content io.write)

abbrev pub clean_up : Bool → Bytes → Disk × Option FileFault → Disk × Option FileFault
clean_up true temp (disk, fault) = (delete temp disk, fault)
clean_up false temp (disk, fault) = (disk, fault)

abbrev pub with_temporary :
    WriteOutcomes → Bytes → Bytes → ℕ → Disk → Option Bytes → Disk × Option FileFault
with_temporary io path content mode disk none = (disk, some create_fault)
with_temporary io path content mode disk (some temp) =
    clean_up io.removes temp (fill_temporary io temp path content mode disk)

unfoldable pub write_atomic : WriteOutcomes → Bytes → Bytes → ℕ → Disk → Disk × Option FileFault
write_atomic io path content mode disk =
    if not io.makes_directory
    then (disk, some directory_fault)
    else with_temporary io path content mode disk io.temporary
