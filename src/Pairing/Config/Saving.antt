-- ===== src/Pairing/Config/Saving.antt =====
-- The two files of a pairing: the pinned host key is saved before the configuration.
use otherhost.Base.{
  ◌≡◌, ◌≢◌, refl, sym, ap, ◌∙◌, ◌⊎◌, inl, inr, ◌||◌, [], ◌∷◌, ◌++◌, Option, none, some, Bytes, any,
  codes, find, Bool-cases, Result, ok, err,
}
use otherhost.Pairing.Config.{
  SaveFault, SaveOutcomes, config_result, is_invalid_setting, save_both, save_client_configuration,
  save_config, saved_settings, text_at, update_key_value_file, updated_text,
}
use otherhost.Pairing.Files.Atomic.{IsApart, IsWhole, write_atomic-apart}
use otherhost.Pairing.Files.{Disk, FileFault, new_file, write_atomic}
use otherhost.Pairing.Messages.{Fault, PairResult}
use otherhost.Pairing.Names.{net_host_invalid}
use otherhost.Pairing.Ssh.{known_hosts_line}
use otherhost.Text.{contains_any}

-- The two files and their temporary files have different names.
pub record AreApart (io : SaveOutcomes) (config hosts : Bytes) : Type 0 where
  pub files : config ≢ hosts
  pub hosts_temporary : IsApart hosts io.hosts.temporary
  pub not_config : io.hosts.temporary ≢ some config
  pub config_temporary : IsApart config io.config.temporary
  pub not_hosts : io.config.temporary ≢ some hosts

-- After a success the host key that was pinned stands alone in its file, and the configuration is the
-- updated one; after a fault the configuration is as it was, and the known-hosts file is as it was or
-- holds the new line.
abbrev pub IsSaved : Bytes → Bytes → PairResult → Disk → Disk × Option SaveFault → Type 0
IsSaved config hosts result before (after, none) =
    (line : Bytes) × (known_hosts_line result.host result.ssh_port result.ssh_host_key ≡ ok line)
    × (find hosts after ≡ some (new_file (line ++ (b'\n' ∷ [])) 0o600))
    × (find config after
        ≡ some (
            new_file (updated_text (saved_settings hosts result) (text_at (find config before)))
              0o600))
IsSaved config hosts result before (after, some fault) =
    (find config after ≡ find config before)
    × ((find hosts after ≡ find hosts before)
        ⊎ ((line : Bytes) × (known_hosts_line result.host result.ssh_port result.ssh_host_key
              ≡ ok line)
            × (find hosts after ≡ some (new_file (line ++ (b'\n' ∷ [])) 0o600))))

module _ (io : SaveOutcomes) (config hosts : Bytes) (result : PairResult) (before : Disk)
    (apart : AreApart io config hosts) where
  config_result-IsSaved :
      (line : Bytes) (middle : Disk) (r : Disk × Option FileFault)
      → known_hosts_line result.host result.ssh_port result.ssh_host_key ≡ ok line
      → find hosts middle ≡ some (new_file (line ++ (b'\n' ∷ [])) 0o600)
      → find config middle ≡ find config before
      → find hosts r.0 ≡ find hosts middle
      → IsWhole config
          (new_file
            (updated_text (saved_settings hosts result) (text_at (find config middle)))
            0o600)
          middle
          r
      → IsSaved config hosts result before (config_result r)
  config_result-IsSaved line middle (after, none) e h c k w = (
    line,
    e,
    k ∙ h,
    w ∙ ap (λ o. some (new_file (updated_text (saved_settings hosts result) (text_at o)) 0o600)) c,
  )
  config_result-IsSaved line middle (after, some fault) e h c k w = (w ∙ c, inr (line, e, k ∙ h))

  -- `updateKeyValueFile` where the configuration is read.
  update_key_value_file-IsSaved :
      (line : Bytes) (middle : Disk)
      → known_hosts_line result.host result.ssh_port result.ssh_host_key ≡ ok line
      → find hosts middle ≡ some (new_file (line ++ (b'\n' ∷ [])) 0o600)
      → find config middle ≡ find config before
      → IsSaved config hosts result before (
          config_result
            (update_key_value_file io.reads io.config config (saved_settings hosts result) middle))
  unfolding update_key_value_file
  update_key_value_file-IsSaved line middle e h c =
      let text = updated_text (saved_settings hosts result) (text_at (find config middle)) in
      let (w, k) =
        write_atomic-apart io.config config text 0o600 middle hosts apart.config_temporary
          (λ q. apart.files (sym q)) apart.not_hosts in
      let done =
        config_result-IsSaved line middle (write_atomic io.config config text 0o600 middle) e h c k
          w in
      elim (Bool-cases (any is_invalid_setting (saved_settings hosts result))) [
        | inl i ↦ rw i (c, inr (line, e, h))
        | inr i ↦ elim (Bool-cases io.reads) [
          | inl r ↦ rw (i, r) done
          | inr r ↦ rw (i, r) (c, inr (line, e, h))
        ]
      ]

  save_config-IsSaved :
      (line : Bytes) (r : Disk × Option FileFault)
      → known_hosts_line result.host result.ssh_port result.ssh_host_key ≡ ok line
      → IsWhole hosts (new_file (line ++ (b'\n' ∷ [])) 0o600) before r
      → find config r.0 ≡ find config before
      → IsSaved config hosts result before (save_config io config (saved_settings hosts result) r)
  save_config-IsSaved line (middle, none) e h c = update_key_value_file-IsSaved line middle e h c
  save_config-IsSaved line (middle, some fault) e h c = (c, inl h)

  save_both-IsSaved :
      (r : Result Fault Bytes)
      → known_hosts_line result.host result.ssh_port result.ssh_host_key ≡ r
      → IsSaved config hosts result before (save_both io config hosts result before r)
  save_both-IsSaved (err fault) e = (refl, inl refl)
  save_both-IsSaved (ok line) e =
      let (w, k) =
        write_atomic-apart io.hosts hosts (line ++ (b'\n' ∷ [])) 0o600 before config
          apart.hosts_temporary apart.files apart.not_config in
      save_config-IsSaved line (write_atomic io.hosts hosts (line ++ (b'\n' ∷ [])) 0o600 before) e w
        k

-- Whatever happens while a paired device is saved, with files and temporary files of different names:
-- after a success the known-hosts file holds exactly the pinned line of the host, and the configuration
-- the settings of the pairing; after any error the configuration is as it was, and the known-hosts file
-- is as it was too or holds the pinned line already, which a fault of the configuration leaves there.
pub save_client_configuration-IsSaved :
    (io : SaveOutcomes) (config hosts : Bytes) (result : PairResult) (before : Disk)
    → AreApart io config hosts
    → IsSaved config hosts result before (save_client_configuration io config hosts result before)
unfolding save_client_configuration
save_client_configuration-IsSaved io config hosts result before apart =
    let saved = save_both-IsSaved io config hosts result before apart _ refl in
    elim (Bool-cases (contains_any result.host (codes "\r\n=") || net_host_invalid result.host)) [
      | inl h ↦ rw h (refl, inl refl)
      | inr h ↦ elim (Bool-cases (contains_any hosts (codes "\r\n\""))) [
        | inl p ↦ rw (h, p) (refl, inl refl)
        | inr p ↦ rw (h, p) saved
      ]
    ]
