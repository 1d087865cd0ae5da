-- ===== src/Dashboard/Config/Checked.antt =====
-- What `SaveClientConfiguration` (internal/pairing/config.go) has checked when it succeeds.
use otherhost.Base.{
  ◌≡◌, refl, inl, inr, true, false, [], ◌∷◌, ◌++◌, Option, none, some, arith, Bytes, Bool-cases,
  any, codes, ℤ, Result, ok, err,
}
use otherhost.Pairing.Config.{
  SaveFault, SaveOutcomes, config_result, is_invalid_setting, save_both, save_client_configuration,
  save_config, saved_settings, update_key_value_file,
}
use otherhost.Pairing.Files.{Disk, FileFault, write_atomic}
use otherhost.Pairing.Messages.{Fault, PairResult}
use otherhost.Pairing.Names.{net_host_invalid, valid_port}
use otherhost.Pairing.Ssh.{known_hosts_line}
use otherhost.Text.{contains_any}

-- The checks that a success has passed.
abbrev pub IsChecked : Bytes → PairResult → Disk × Option SaveFault → Type 0
IsChecked hosts result (after, some fault) = Unit {0}
IsChecked hosts result (after, none) =
    (net_host_invalid result.host ≡ false)
    × (any is_invalid_setting (saved_settings hosts result) ≡ false)
    × (valid_port result.ssh_port ≡ true)

known_hosts_line-port :
    (host key line : Bytes) (port : ℤ)
    → known_hosts_line host port key ≡ ok line
    → valid_port port ≡ true
unfolding known_hosts_line
known_hosts_line-port host key line port e = ground arith

module _ (hosts : Bytes) (result : PairResult) (h : net_host_invalid result.host ≡ false) where
  config_result-IsChecked :
      (r : Disk × Option FileFault)
      → any is_invalid_setting (saved_settings hosts result) ≡ false
      → valid_port result.ssh_port ≡ true
      → IsChecked hosts result (config_result r)
  config_result-IsChecked (after, none) i p = (h, i, p)
  config_result-IsChecked (after, some fault) i p = tt

  save_config-IsChecked :
      (io : SaveOutcomes) (config : Bytes) (r : Disk × Option FileFault)
      → valid_port result.ssh_port ≡ true
      → IsChecked hosts result (save_config io config (saved_settings hosts result) r)
  unfolding update_key_value_file
  save_config-IsChecked io config (middle, some fault) p = tt
  save_config-IsChecked io config (middle, none) p =
      elim (Bool-cases (any is_invalid_setting (saved_settings hosts result))) [
        | inl i ↦ rw i tt
        | inr i ↦ rw i (config_result-IsChecked _ i p)
      ]

  save_both-IsChecked :
      (io : SaveOutcomes) (config : Bytes) (before : Disk) (r : Result Fault Bytes)
      → known_hosts_line result.host result.ssh_port result.ssh_host_key ≡ r
      → IsChecked hosts result (save_both io config hosts result before r)
  save_both-IsChecked io config before (err fault) e = tt
  save_both-IsChecked io config before (ok line) e =
      save_config-IsChecked io config
        (write_atomic io.hosts hosts (line ++ (b'\n' ∷ [])) 0o600 before)
        (known_hosts_line-port result.host result.ssh_host_key line result.ssh_port e)

pub save_client_configuration-IsChecked :
    (io : SaveOutcomes) (config hosts : Bytes) (result : PairResult) (before : Disk)
    → IsChecked hosts result (save_client_configuration io config hosts result before)
unfolding save_client_configuration
save_client_configuration-IsChecked io config hosts result before =
    elim (Bool-cases (net_host_invalid result.host)) [
      | inl n ↦ elim (Bool-cases (contains_any result.host (codes "\r\n="))) [
        | inl c ↦ rw c tt
        | inr c ↦ rw (c, n) tt
      ]
      | inr n ↦ elim (Bool-cases (contains_any result.host (codes "\r\n="))) [
        | inl c ↦ rw c tt
        | inr c ↦ elim (Bool-cases (contains_any hosts (codes "\r\n\""))) [
          | inl p ↦ rw (c, n, p) tt
          | inr p ↦ rw (c, n, p) (save_both-IsChecked hosts result n io config before _ refl)
        ]
      ]
    ]
