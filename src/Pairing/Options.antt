-- ===== src/Pairing/Options.antt =====
-- internal/pairing/host.go: the checks of `RunHost` on its options, and `configureHostCallbacks`.
use otherhost.Base.{
  ◌*◌, ◌^◌, Bool, false, not, ◌&&◌, ◌||◌, Option, if◌then◌else◌, ltb, leb, Bytes, codes, length, ℤ,
  pos, negsuc, Result, ok, err, ◌>>=◌, ◌>>◌, refuse_if, or_err,
}
use otherhost.Pairing.Host.Handlers.{hex_encode}
use otherhost.Pairing.Messages.{
  Fault, invalid_duration, invalid_instance, invalid_network_port, invalid_ssh_user,
  no_confirmation, no_distribution, no_host_key_source, no_install_target, random_failed,
}
use otherhost.Pairing.Names.{clean_device_name, is_empty, valid_identifier, valid_port}
use otherhost.Pairing.Ssh.{normalize_ed25519_public_key}
use otherhost.Text.{contains_any}

-- The options of `RunHost`; of a callback only whether it is given. The duration is in nanoseconds.
pub record RunOptions : Type 0 where
  pub instance_id : Bytes
  pub name : Bytes
  pub distro : Bytes
  pub ssh_user : Bytes
  pub ssh_port : ℤ
  pub pair_port : ℤ
  pub duration : ℤ
  pub authorized_keys_file : Bytes
  pub ssh_host_public_key : Bytes
  pub has_confirm : Bool
  pub has_installer : Bool
  pub has_host_key_reader : Bool
  pub user_scoped_wsl : Bool

-- What installs a key, and where the SSH host key is read.
pub data Installer : Type 0 where
  given_installer : Installer
  key_file wsl_distro : Bytes → Installer

pub data HostKeySource : Type 0 where
  given_reader : HostKeySource
  fixed_key wsl_user_key wsl_key : Bytes → HostKeySource

unfoldable pub choose_installer : RunOptions → Result Fault Installer
choose_installer o =
    if o.has_installer
    then ok given_installer
    else if not (is_empty o.authorized_keys_file)
    then ok (key_file o.authorized_keys_file)
    else if not (is_empty o.distro)
    then ok (wsl_distro o.distro)
    else err no_install_target

abbrev pub fixed_key_source : Result Fault Bytes → Result Fault HostKeySource
fixed_key_source (err fault) = err fault
fixed_key_source (ok key) = ok (fixed_key key)

unfoldable pub choose_host_key_source : RunOptions → Result Fault HostKeySource
choose_host_key_source o =
    if o.has_host_key_reader
    then ok given_reader
    else if not (is_empty o.ssh_host_public_key)
    then fixed_key_source (normalize_ed25519_public_key o.ssh_host_public_key)
    else if not (is_empty o.distro) && o.user_scoped_wsl
    then ok (wsl_user_key o.distro)
    else if not (is_empty o.distro)
    then ok (wsl_key o.distro)
    else err no_host_key_source

unfoldable pub valid_duration : ℤ → Bool
valid_duration (pos n) = leb (10 * 10 ^ 9) n && leb n (600 * 10 ^ 9)
valid_duration (negsuc n) = false

-- The instance that is given, or 16 random bytes in hexadecimal.
unfoldable pub choose_instance : Bytes → Option Bytes → Result Fault Bytes
choose_instance given draw =
    if is_empty given
    then (do bytes ← or_err draw random_failed; ok (hex_encode bytes))
    else if ltb 64 (length given) || contains_any given (codes "\r\n")
    then err invalid_instance
    else ok given

-- A host that may start to listen.
pub record PreparedHost : Type 0 where
  pub instance_id : Bytes
  pub name : Bytes
  pub ssh_user : Bytes
  pub ssh_port : ℤ
  pub pair_port : ℤ
  pub duration : ℤ
  pub installer : Installer
  pub host_key_source : HostKeySource

-- `RunHost` up to `net.Listen`, with the random bytes that it draws.
unfoldable pub prepare_host : RunOptions → Option Bytes → Result Fault PreparedHost
prepare_host o draw = do
  name ← clean_device_name o.name
  refuse_if (not (valid_identifier o.ssh_user)) invalid_ssh_user
  refuse_if (not (valid_port o.ssh_port) || not (valid_port o.pair_port)) invalid_network_port
  refuse_if (not (valid_duration o.duration)) invalid_duration
  refuse_if (not o.has_confirm) no_confirmation
  refuse_if (o.user_scoped_wsl && is_empty o.distro) no_distribution
  installer ← choose_installer o
  source ← choose_host_key_source o
  instance_id ← choose_instance o.instance_id draw
  ok (record {
    instance_id = instance_id;
    name = name;
    ssh_user = o.ssh_user;
    ssh_port = o.ssh_port;
    pair_port = o.pair_port;
    duration = o.duration;
    installer = installer;
    host_key_source = source;
  })
