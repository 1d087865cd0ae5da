-- ===== src/Tests/Searching.antt =====
-- A host that is prepared, and found.
use otherhost.Base.{
  ◌*◌, ◌^◌, ◌≡◌, refl, true, false, [], some, ok, arith, codes, pos, Bytes, bytes_eq, length, ltb,
  ◌||◌,
}
use otherhost.Pairing.Discovery.Found.{
  IsSound, accept_advertisement-IsCleanName, device_of, found_by_search, prepare_host-IsSound,
}
use otherhost.Pairing.Discovery.{
  DiscoveryResponse, accept_advertisement, advertisement, answer_query, discovery_magic,
  handle_discovery, probe_device,
}
use otherhost.Pairing.Host.Handlers.{is_version}
use otherhost.Pairing.Host.{get}
use otherhost.Pairing.Local.{ip4, is_local_network_ip}
use otherhost.Pairing.Names.Sound.{IsCleanName}
use otherhost.Pairing.Names.{clean_device_name, is_allowed, is_empty, valid_identifier, valid_port}
use otherhost.Pairing.Options.{
  PreparedHost, RunOptions, choose_host_key_source, choose_installer, choose_instance, given_reader,
  key_file, prepare_host, valid_duration,
}
use otherhost.Tests.Toy.{block}
use otherhost.Text.{contains_any, trim_space}

abbrev options : RunOptions
options = record {
  instance_id = codes "i-1";
  name = codes " forge ";
  distro = [];
  ssh_user = codes "dev";
  ssh_port = pos 2222;
  pair_port = pos 25371;
  duration = pos (120 * 10 ^ 9);
  authorized_keys_file = codes "/k";
  ssh_host_public_key = [];
  has_confirm = true;
  has_installer = false;
  has_host_key_reader = true;
  user_scoped_wsl = false;
}

abbrev forge : PreparedHost
forge = record {
  instance_id = codes "i-1";
  name = codes "forge";
  ssh_user = codes "dev";
  ssh_port = pos 2222;
  pair_port = pos 25371;
  duration = pos (120 * 10 ^ 9);
  installer = key_file (codes "/k");
  host_key_source = given_reader;
}

prepared : prepare_host options (some (block 16 3)) ≡ ok forge
unfolding prepare_host clean_device_name is_allowed is_empty valid_identifier valid_port
    valid_duration choose_host_key_source choose_installer choose_instance contains_any trim_space
prepared = refl

drawn : (bytes : Bytes) → some (block 16 3) ≡ some bytes → length bytes ≡ 16
drawn bytes e = ground arith

prepare_host-IsSound_example : IsSound forge
prepare_host-IsSound_example = prepare_host-IsSound options (some (block 16 3)) forge drawn prepared

forge-IsSound : IsSound forge
forge-IsSound = prepare_host-IsSound options (some (block 16 3)) forge drawn prepared

local : is_local_network_ip (ip4 10 0 0 7) ≡ true
unfolding is_local_network_ip
local = refl

short_nonce : (is_empty (codes "n") || ltb 64 (length (codes "n"))) ≡ false
unfolding is_empty
short_nonce = refl

found_by_search_example :
    (handle_discovery forge get (ip4 10 0 0 7) (codes "n") ≡ ok (advertisement forge (codes "n")))
    × (probe_device
          (ip4 10 0 0 7)
          (pos 25371)
          (codes "n")
          200
          (some (advertisement forge (codes "n")))
        ≡ ok (device_of forge (ip4 10 0 0 7)))
    × (answer_query forge
          (ip4 10 0 0 7)
          100
          (some (record { magic = discovery_magic; version = pos 1; nonce = codes "n" }))
        ≡ ok (advertisement forge (codes "n")))
    × (accept_advertisement (codes "n") (ip4 10 0 0 7) 100 (some (advertisement forge (codes "n")))
        ≡ ok (device_of forge (ip4 10 0 0 7)))
found_by_search_example =
    found_by_search forge (ip4 10 0 0 7) (ip4 10 0 0 7) (codes "n") 100 forge-IsSound local local
      short_nonce (omega arith)

accepted :
    accept_advertisement (codes "n") (ip4 10 0 0 7) 100 (some (advertisement forge (codes "n")))
    ≡ ok (device_of forge (ip4 10 0 0 7))
unfolding accept_advertisement is_local_network_ip is_version clean_device_name is_allowed is_empty
    valid_port trim_space bytes_eq
accepted = refl

accept_advertisement-IsCleanName_example :
    IsCleanName (codes "forge")
    × (valid_port (pos 25371) ≡ true)
    × (ip4 10 0 0 7 ≡ ip4 10 0 0 7)
    × (is_local_network_ip (ip4 10 0 0 7) ≡ true)
    × ((r : DiscoveryResponse) × (some (advertisement forge (codes "n")) ≡ some r)
        × (r.nonce ≡ codes "n"))
accept_advertisement-IsCleanName_example =
    accept_advertisement-IsCleanName (codes "n") (ip4 10 0 0 7) 100
      (some (advertisement forge (codes "n"))) (device_of forge (ip4 10 0 0 7)) accepted
