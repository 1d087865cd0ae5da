-- ===== src/Pairing/Discovery.antt =====
-- internal/pairing/discovery.go and host.go: the answers of a host that is searched for, by UDP and by
-- HTTP, and what the search takes for a device. A message is none where it does not decode.
pub mod Found
use otherhost.Base.{
  ℕ, Bool, true, false, not, ◌&&◌, ◌||◌, Option, none, some, if◌then◌else◌, ltb, ◌==◌, Bytes, codes,
  bytes_eq, length, ℤ, pos, negsuc, Result, ok, err, ◌>>=◌, ◌>>◌, refuse_if, or_err,
}
use otherhost.Pairing.Host.Handlers.{is_version, or_status}
use otherhost.Pairing.Host.{Method, get, post, other_method}
use otherhost.Pairing.Local.{Ip, is_local_network_ip}
use otherhost.Pairing.Messages.{max_message_size}
use otherhost.Pairing.Names.{clean_device_name, is_empty, valid_port}
use otherhost.Pairing.Options.{PreparedHost}

abbrev pub discovery_magic : Bytes
discovery_magic = codes "devbox-bridge-discovery"

pub record DiscoveryQuery : Type 0 where
  pub magic : Bytes
  pub version : ℤ
  pub nonce : Bytes

pub record DiscoveryResponse : Type 0 where
  pub magic : Bytes
  pub version : ℤ
  pub nonce : Bytes
  pub instance_id : Bytes
  pub name : Bytes
  pub port : ℤ

-- An address stands for its text too.
pub record Device : Type 0 where
  pub instance_id : Bytes
  pub name : Bytes
  pub address : Ip
  pub port : ℤ

unfoldable pub is_get : Method → Bool
is_get get = true
is_get _ = false

abbrev pub advertisement : PreparedHost → Bytes → DiscoveryResponse
advertisement host nonce = record {
  magic = discovery_magic;
  version = pos 1;
  nonce = nonce;
  instance_id = host.instance_id;
  name = host.name;
  port = host.pair_port;
}

-- `handleDiscovery`
unfoldable pub handle_discovery : PreparedHost → Method → Ip → Bytes → Result ℕ DiscoveryResponse
handle_discovery host method remote nonce = do
  refuse_if (not (is_get method) || not (is_local_network_ip remote)) 403
  refuse_if (is_empty nonce || ltb 64 (length nonce)) 400
  ok (advertisement host nonce)

-- A pass of `serveAdvertisements` behind its read: the answer to a datagram of that size.
unfoldable pub answer_query :
    PreparedHost → Ip → ℕ → Option DiscoveryQuery → Result ℕ DiscoveryResponse
answer_query host remote size message = do
  refuse_if (not (is_local_network_ip remote) || ltb max_message_size size) 0
  query ← or_err message 0
  refuse_if
      (not (bytes_eq query.magic discovery_magic)
        || (not (is_version query.version)
            || (is_empty query.nonce || ltb 64 (length query.nonce))))
      0
  ok (advertisement host query.nonce)

-- A pass of the loop of `Discover` behind its read.
unfoldable pub accept_advertisement : Bytes → Ip → ℕ → Option DiscoveryResponse → Result ℕ Device
accept_advertisement nonce remote size message = do
  refuse_if (not (is_local_network_ip remote) || ltb max_message_size size) 0
  r ← or_err message 0
  refuse_if
      (not (bytes_eq r.magic discovery_magic)
        || (not (is_version r.version)
            || (not (bytes_eq r.nonce nonce)
                || (is_empty r.instance_id || not (valid_port r.port)))))
      0
  name ← or_status (clean_device_name r.name) 0
  ok (record { instance_id = r.instance_id; name = name; address = remote; port = r.port })

abbrev pub same_port : ℤ → ℤ → Bool
same_port (pos a) (pos b) = a == b
same_port (negsuc a) (negsuc b) = a == b
same_port (pos a) (negsuc b) = false
same_port (negsuc a) (pos b) = false

-- `probeDevice` behind its request: the address answers, with a status and a message.
unfoldable pub probe_device : Ip → ℤ → Bytes → ℕ → Option DiscoveryResponse → Result ℕ Device
probe_device address pair_port nonce status message = do
  refuse_if (not (status == 200)) 0
  r ← or_err message 0
  refuse_if
      (not (bytes_eq r.magic discovery_magic)
        || (not (is_version r.version)
            || (not (bytes_eq r.nonce nonce)
                || (is_empty r.instance_id
                    || (ltb 64 (length r.instance_id) || not (same_port r.port pair_port))))))
      0
  name ← or_status (clean_device_name r.name) 0
  ok (record { instance_id = r.instance_id; name = name; address = address; port = r.port })
