-- ===== src/Pairing/Subnets.antt =====
-- internal/pairing/discovery.go: `localSubnetPlan`. An IPv4 address is also its value, a number below
-- 2^32, which stands for its text too; a network is its value and the length of its prefix.
pub mod Hosts
pub mod Planned
pub mod Covering
pub mod Complete
use otherhost.Base.{
  ℕ, zero, suc, ◌+◌, ◌-◌, ◌*◌, ◌/◌, ◌%◌, ◌^◌, Bool, true, false, not, ◌&&◌, ◌||◌, List, [], ◌∷◌,
  ◌++◌, Option, none, some, if◌then◌else◌, ltb, ◌==◌, any, length,
}
use otherhost.Pairing.Local.{Ip, ip4, ip6, is_local_network_ip, no_ip}

abbrev pub max_subnet_candidates : ℕ
max_subnet_candidates = 1024

-- An `*net.IPNet` with the two numbers of `Mask.Size`, or another kind of address.
pub data Address : Type 0 where
  ip_network : Ip → ℕ → ℕ → Address
  other_address : Address

-- The flags, and the addresses where they are read.
pub record Interface : Type 0 where
  pub up : Bool
  pub loopback : Bool
  pub point_to_point : Bool
  pub broadcast : Bool
  pub addresses : Option (List Address)

-- `subnetPlan`; `is_full` tells that the function has returned early.
pub record SubnetPlan : Type 0 where
  pub candidates : List ℕ
  pub networks : List (ℕ × ℕ)
  pub is_full : Bool

-- `binary.BigEndian.Uint32`, and the address of a value.
abbrev pub value_of : ℕ → ℕ → ℕ → ℕ → ℕ
value_of a b c d = ((a * 256 + b) * 256 + c) * 256 + d

abbrev pub ip_of : ℕ → Ip
ip_of v = ip4 (v / 16777216 % 256) (v / 65536 % 256) (v / 256 % 256) (v % 256)

-- How many addresses a network of that prefix has, and the value that its mask leaves.
abbrev pub address_count : ℕ → ℕ
address_count prefix = 2 ^ (32 - prefix)

abbrev pub network_of : ℕ → ℕ → ℕ
network_of local prefix = local - local % address_count prefix

-- The candidates are the keys of `seen`.
abbrev pub is_seen : List ℕ → ℕ → Bool
is_seen candidates value = any (λ c. c == value) candidates

-- The loop over the offsets, with the number of them that is left.
unfoldable pub add_offsets : ℕ → ℕ → ℕ → ℕ → List ℕ → List ℕ × Bool
add_offsets network local zero offset result = (result, false)
add_offsets network local (suc left) offset result =
    let value = (network + offset) % 2 ^ 32 in
    elim (value == local || is_seen result value) [
      | true ↦ add_offsets network local left (suc offset) result
      | false ↦ elim (length (result ++ value ∷ []) == max_subnet_candidates) [
        | true ↦ (result ++ value ∷ [], true)
        | false ↦ add_offsets network local left (suc offset) (result ++ value ∷ [])
      ]
    ]

abbrev pub has_network : ℕ × ℕ → List (ℕ × ℕ) → Bool
has_network (v, p) networks = any (λ n. n.0 == v && n.1 == p) networks

abbrev pub add_network : ℕ × ℕ → List (ℕ × ℕ) → List (ℕ × ℕ)
add_network n networks = if has_network n networks then networks else networks ++ n ∷ []

-- The subnet of a local address; large ones are bounded to a prefix of 24.
unfoldable pub add_subnet : ℕ → ℕ → SubnetPlan → SubnetPlan
add_subnet local prefix plan =
    let network = network_of local prefix in
    let (grown, full) = add_offsets network local (address_count prefix - 2) 1 plan.candidates in
    record {
      candidates = grown;
      networks = add_network (network, prefix) plan.networks;
      is_full = full;
    }

abbrev pub bounded_prefix : ℕ → ℕ
bounded_prefix prefix = if ltb prefix 24 then 24 else prefix

unfoldable pub is_searched : Ip → ℕ → ℕ → Bool
is_searched ip prefix bits = is_local_network_ip ip && not (not (bits == 32) || ltb 30 prefix)

unfoldable pub add_address : Address → SubnetPlan → SubnetPlan
add_address other_address plan = plan
add_address (ip_network no_ip prefix bits) plan = plan
add_address (ip_network (ip6 a b c d e f g h) prefix bits) plan = plan
add_address (ip_network (ip4 a b c d) prefix bits) plan =
    if is_searched (ip4 a b c d) prefix bits
    then add_subnet (value_of a b c d) (bounded_prefix prefix) plan
    else plan

-- The loops end as soon as the plan is full.
unfoldable pub add_addresses : List Address → SubnetPlan → SubnetPlan
add_addresses [] plan = plan
add_addresses (a ∷ addresses) plan =
    let next = add_address a plan in
    elim next.is_full [ true ↦ next | false ↦ add_addresses addresses next ]

unfoldable pub is_eligible : Interface → Bool
is_eligible i = not (not i.up || (i.loopback || (i.point_to_point || not i.broadcast)))

abbrev pub or_no_addresses : Option (List Address) → List Address
or_no_addresses none = []
or_no_addresses (some addresses) = addresses

unfoldable pub add_interface : Interface → SubnetPlan → SubnetPlan
add_interface i plan =
    if is_eligible i then add_addresses (or_no_addresses i.addresses) plan else plan

unfoldable pub add_interfaces : List Interface → SubnetPlan → SubnetPlan
add_interfaces [] plan = plan
add_interfaces (i ∷ interfaces) plan =
    let next = add_interface i plan in
    elim next.is_full [ true ↦ next | false ↦ add_interfaces interfaces next ]

unfoldable pub local_subnet_plan : List Interface → SubnetPlan
unfolding add_interfaces
local_subnet_plan interfaces =
    add_interfaces interfaces (record { candidates = []; networks = []; is_full = false })
