-- ===== src/Pairing/Probes.antt =====
-- internal/pairing/discovery.go: what `discoverAtAddresses` makes of the answers of its probes, which
-- come in any order, what `Discover` makes of its datagrams, and how `DiscoverDevices` joins the two
-- searches. The counts of attempts and responses are only logged.
pub mod Order
pub mod Keys
pub mod Arrival
use otherhost.Base.{
  ℕ, Bool, true, false, not, ◌&&◌, ◌||◌, List, [], ◌∷◌, ◌++◌, Option, none, some, if◌then◌else◌,
  ltb, ◌==◌, Bytes, bytes_eq, any, insert, pos, ℤ, Result, ok, err,
}
use otherhost.Pairing.Discovery.{Device}
use otherhost.Pairing.Local.{Ip, ip4, ip6, no_ip}
use otherhost.Pairing.Subnets.{Interface, SubnetPlan, ip_of, local_subnet_plan}
use otherhost.Pairing.Names.{valid_port}
use otherhost.Text.Decimal.{itoa, itoa_ℕ}
use otherhost.Text.Order.{bytes_lt}

-- `net.IP.String` of an IPv4 address; both searches ask only such addresses.
unfoldable pub ip_text : Ip → Bytes
ip_text (ip4 a b c d) = itoa_ℕ a ++ b'.' ∷ (itoa_ℕ b ++ b'.' ∷ (itoa_ℕ c ++ b'.' ∷ itoa_ℕ d))
ip_text (ip6 a b c d e f g h) = []
ip_text no_ip = []

-- `addressProbeResult`
pub data ProbeResult : Type 0 where
  unreachable invalid_response : ProbeResult
  compatible : Device → ProbeResult

-- The outcome of `probeDevice`: none where the request fails.
abbrev pub probe_result : Option (Result ℕ Device) → ProbeResult
probe_result none = unreachable
probe_result (some (err fault)) = invalid_response
probe_result (some (ok device)) = compatible device

unfoldable pub device_key : Device → Bytes
device_key d = d.instance_id ++ b'@' ∷ (ip_text d.address ++ b':' ∷ itoa d.port)

-- The keys of `seen` are those of the devices.
abbrev pub has_key : Bytes → List Device → Bool
has_key key devices = any (λ d. bytes_eq (device_key d) key) devices

abbrev pub add_device : Device → List Device → List Device
add_device d devices = if has_key (device_key d) devices then devices else devices ++ d ∷ []

-- The loop over the results.
unfoldable pub collect_devices : List Device → List ProbeResult → List Device
collect_devices devices [] = devices
collect_devices devices (unreachable ∷ results) = collect_devices devices results
collect_devices devices (invalid_response ∷ results) = collect_devices devices results
collect_devices devices (compatible d ∷ results) = collect_devices (add_device d devices) results

unfoldable pub is_before : Device → Device → Bool
is_before a b =
    if bytes_eq a.name b.name
    then bytes_lt (ip_text a.address) (ip_text b.address)
    else bytes_lt a.name b.name

-- `sort.Slice`, which leaves the order of equals open: one of its results.
unfoldable pub insert_device : Device → List Device → List Device
insert_device d [] = d ∷ []
insert_device d (e ∷ devices) =
    let rest = insert_device d devices in if is_before e d then e ∷ rest else d ∷ e ∷ devices

unfoldable pub sort_devices : List Device → List Device
unfolding insert_device
sort_devices [] = []
sort_devices (d ∷ devices) = insert_device d (sort_devices devices)

-- The answers in the order in which they come.
unfoldable pub discover_at_addresses : List ProbeResult → List Device
unfolding collect_devices
discover_at_addresses results = sort_devices (collect_devices [] results)

-- `Discover` behind its loop: a map from keys to devices, in which a later answer replaces one before.
unfoldable pub collect_advertisements : List (Bytes × Device) → List Device → List (Bytes × Device)
collect_advertisements devices [] = devices
collect_advertisements devices (d ∷ accepted) =
    collect_advertisements (insert (device_key d) d devices) accepted

abbrev pub devices_of : List (Bytes × Device) → List Device
devices_of [] = []
devices_of ((key, d) ∷ devices) = d ∷ devices_of devices

unfoldable pub discover : List Device → List Device
unfolding collect_advertisements
discover accepted = sort_devices (devices_of (collect_advertisements [] accepted))

pub data SearchFault : Type 0 where
  invalid_pairing_port multicast_failed no_interfaces : SearchFault

abbrev pub or_multicast_fault : Option SearchFault → SearchFault → SearchFault
or_multicast_fault none other = other
or_multicast_fault (some fault) other = fault

abbrev pub search_plan :
    (List ℕ → List ProbeResult)
    → Option SearchFault
    → Option SubnetPlan
    → List Device × Option SearchFault
search_plan probes fault none = ([], some (or_multicast_fault fault no_interfaces))
search_plan probes fault (some plan) = (discover_at_addresses (probes plan.candidates), none)

abbrev pub plan_of : Option (List Interface) → Option SubnetPlan
plan_of none = none
plan_of (some interfaces) = some (local_subnet_plan interfaces)

-- `DiscoverDevices`, with what the multicast search has found, whether the context has ended, the
-- interfaces where they are read, and what the probes of some addresses answer.
unfoldable pub discover_devices :
    ℤ
    → List Device
    → Option SearchFault
    → Bool
    → Option (List Interface)
    → (List ℕ → List ProbeResult)
    → List Device × Option SearchFault
discover_devices pair_port [] fault ended interfaces probes =
    if not (valid_port pair_port)
    then ([], some invalid_pairing_port)
    else if ended
    then ([], fault)
    else search_plan probes fault (plan_of interfaces)
discover_devices pair_port (d ∷ devices) fault ended interfaces probes =
    if not (valid_port pair_port) then ([], some invalid_pairing_port) else (d ∷ devices, fault)
