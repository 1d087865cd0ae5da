-- ===== src/Pairing/Discovery/Found.antt =====
-- A host that starts to listen has sound options, and a search finds it under its own name and port.
use otherhost.Base.{
  ℕ, suc, ◌+◌, ◌≡◌, ◌≤◌, refl, true, false, ◌||◌, [], ◌∷◌, Option, none, some, arith, ltb, Bytes,
  bytes_eq, bytes_eq_iff, bytes_eq_refl, length, ℤ, pos, negsuc, ok,
}
use otherhost.Pairing.Discovery.{
  Device, DiscoveryResponse, accept_advertisement, advertisement, answer_query, discovery_magic,
  handle_discovery, is_get, probe_device, same_port,
}
use otherhost.Pairing.Host.Handlers.{hex_encode, is_version}
use otherhost.Pairing.Host.{get}
use otherhost.Pairing.Local.{Ip, is_local_network_ip}
use otherhost.Pairing.Messages.{max_message_size}
use otherhost.Pairing.Names.Sound.{IsCleanName, clean_device_name-IsCleanName}
use otherhost.Pairing.Names.{clean_device_name, is_empty, valid_identifier, valid_port}
use otherhost.Pairing.Options.{
  PreparedHost, RunOptions, choose_instance, prepare_host, valid_duration,
}

-- What the checks of `RunHost` leave: a host that a pairing can be served with.
pub record IsSound (host : PreparedHost) : Type 0 where
  pub clean : IsCleanName host.name
  pub cleaned : clean_device_name host.name ≡ ok host.name
  pub user : valid_identifier host.ssh_user ≡ true
  pub ports : (valid_port host.ssh_port ≡ true) × (valid_port host.pair_port ≡ true)
  pub lasts : valid_duration host.duration ≡ true
  pub named : is_empty host.instance_id ≡ false
  pub short : length host.instance_id ≤ 64

length-hex_encode : (s : Bytes) → length (hex_encode s) ≡ length s + length s
unfolding hex_encode
length-hex_encode [] = refl
length-hex_encode (c ∷ s) = omega (arith, length-hex_encode s)

is_empty-length : (s : Bytes) (n : ℕ) → length s ≡ suc n → is_empty s ≡ false
unfolding is_empty
is_empty-length [] n e = ground arith
is_empty-length (c ∷ s) n e = refl

choose_instance-fits :
    (given : Bytes) (draw : Option Bytes) (id : Bytes)
    → ((bytes : Bytes) → draw ≡ some bytes → length bytes ≡ 16)
    → choose_instance given draw ≡ ok id
    → (is_empty id ≡ false) × (length id ≤ 64)
unfolding choose_instance
choose_instance-fits given none id f e = ground arith
choose_instance-fits given (some bytes) id f e =
    ground (arith, f bytes refl, length-hex_encode bytes, is_empty-length (hex_encode bytes) 31)

prepare_host-parts :
    (o : RunOptions) (draw : Option Bytes) (host : PreparedHost)
    → prepare_host o draw ≡ ok host
    → (clean_device_name o.name ≡ ok host.name)
      × (valid_identifier host.ssh_user ≡ true)
      × ((valid_port host.ssh_port ≡ true) × (valid_port host.pair_port ≡ true))
      × (valid_duration host.duration ≡ true)
      × (o.has_confirm ≡ true)
      × (choose_instance o.instance_id draw ≡ ok host.instance_id)
unfolding prepare_host
prepare_host-parts o draw host e = ground arith

-- The options with which a pairing host starts to listen are sound: a clean name, which is cleaned to
-- itself, a valid user and valid ports, 10 seconds to 10 minutes, and an instance that is neither empty
-- nor longer than 64, if 16 bytes are drawn where a draw succeeds.
pub prepare_host-IsSound :
    (o : RunOptions) (draw : Option Bytes) (host : PreparedHost)
    → ((bytes : Bytes) → draw ≡ some bytes → length bytes ≡ 16)
    → prepare_host o draw ≡ ok host
    → IsSound host
prepare_host-IsSound o draw host f e =
    let (n, u, ps, d, c, i) = prepare_host-parts o draw host e in
    let (clean, same) = clean_device_name-IsCleanName o.name n in
    let (named, short) = choose_instance-fits o.instance_id draw host.instance_id f i in
    record {
      clean = clean;
      cleaned = same;
      user = u;
      ports = ps;
      lasts = d;
      named = named;
      short = short;
    }

same_port_refl : (p : ℤ) → same_port p p ≡ true
same_port_refl (pos n) = ground arith
same_port_refl (negsuc n) = ground arith

-- A host at an address, as a search lists it.
abbrev pub device_of : PreparedHost → Ip → Device
device_of host at = record {
  instance_id = host.instance_id;
  name = host.name;
  address = at;
  port = host.pair_port;
}

-- A sound host that is asked, by HTTP from a local address or by a datagram, with a nonce of 1 to 64
-- bytes, is found: the search accepts its answer, and takes it for a device with the host's instance,
-- name and pairing port at the address that answered.
pub found_by_search :
    (host : PreparedHost) (client at : Ip) (nonce : Bytes) (size : ℕ)
    → IsSound host
    → is_local_network_ip client ≡ true
    → is_local_network_ip at ≡ true
    → (is_empty nonce || ltb 64 (length nonce)) ≡ false
    → size ≤ max_message_size
    → (handle_discovery host get client nonce ≡ ok (advertisement host nonce))
      × (probe_device at host.pair_port nonce 200 (some (advertisement host nonce))
          ≡ ok (device_of host at))
      × (answer_query host client size
            (some (record { magic = discovery_magic; version = pos 1; nonce = nonce }))
          ≡ ok (advertisement host nonce))
      × (accept_advertisement nonce at size (some (advertisement host nonce))
          ≡ ok (device_of host at))
unfolding handle_discovery probe_device answer_query accept_advertisement is_version is_get
found_by_search host client at nonce size s lc la n z =
    let m = bytes_eq_refl discovery_magic in
    let q = bytes_eq_refl nonce in
    let p = same_port_refl host.pair_port in
    let (sp, pp) = s.ports in
    let k = s.cleaned in
    let i = s.named in let h = s.short in (ground arith, ground arith, ground arith, ground arith)

accept_advertisement-parts :
    (nonce : Bytes) (at : Ip) (size : ℕ) (r : DiscoveryResponse) (d : Device)
    → accept_advertisement nonce at size (some r) ≡ ok d
    → (is_local_network_ip at ≡ true)
      × (clean_device_name r.name ≡ ok d.name)
      × (bytes_eq r.nonce nonce ≡ true)
      × (valid_port d.port ≡ true)
      × (d.address ≡ at)
unfolding accept_advertisement
accept_advertisement-parts nonce at size r d e = ground arith

-- Whatever datagram a search takes for a device, it came from a local address and carried the nonce of
-- this search, and the device that is listed has a clean name, a valid port and the sender's address.
pub accept_advertisement-IsCleanName :
    (nonce : Bytes) (at : Ip) (size : ℕ) (message : Option DiscoveryResponse) (d : Device)
    → accept_advertisement nonce at size message ≡ ok d
    → IsCleanName d.name
      × (valid_port d.port ≡ true)
      × (d.address ≡ at)
      × (is_local_network_ip at ≡ true)
      × ((r : DiscoveryResponse) × (message ≡ some r) × (r.nonce ≡ nonce))
unfolding accept_advertisement
accept_advertisement-IsCleanName nonce at size none d e = absurd (ground arith)
accept_advertisement-IsCleanName nonce at size (some r) d e =
    let (l, n, q, p, a) = accept_advertisement-parts nonce at size r d e in
    (
      (clean_device_name-IsCleanName r.name n).0,
      p,
      a,
      l,
      (r, refl, (bytes_eq_iff r.nonce nonce).0 q),
    )
