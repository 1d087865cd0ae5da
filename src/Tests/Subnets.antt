-- ===== src/Tests/Subnets.antt =====
-- A plan for a small subnet, and answers in two orders.
use otherhost.Base.{
  ◌≡◌, refl, inl, inr, true, false, List, [], ◌∷◌, some, arith, All, codes, pos, bytes_eq,
}
use otherhost.Base.Reordered.{IsReordered, behind, exchanged, in_turn}
use otherhost.Text.Order.{bytes_lt}
use otherhost.Pairing.Discovery.{Device}
use otherhost.Pairing.Local.{ip4, is_link_local, is_local_network_ip, is_loopback, is_private}
use otherhost.Pairing.Probes.Arrival.{
  HaveOwnAddresses, compatible_devices, discover_at_addresses-IsReordered,
}
use otherhost.Pairing.Probes.{
  ProbeResult, collect_devices, compatible, device_key, discover_at_addresses, ip_text, is_before,
  sort_devices, unreachable,
}
use otherhost.Pairing.Subnets.Complete.{local_subnet_plan-IsCovered}
use otherhost.Pairing.Subnets.Covering.{IsCovered}
use otherhost.Pairing.Subnets.Hosts.{IsPlanned}
use otherhost.Pairing.Subnets.Planned.{HasBytes, IsNearby, local_subnet_plan-IsPlanned}
use otherhost.Pairing.Subnets.{
  Interface, add_address, add_addresses, add_interface, add_offsets, add_subnet, ip_network, ip_of,
  is_eligible, is_searched, local_subnet_plan, or_no_addresses, other_address,
}
use otherhost.Text.Decimal.{itoa, itoa_ℕ}

abbrev lan : Interface
lan = record {
  up = true;
  loopback = false;
  point_to_point = false;
  broadcast = true;
  addresses = some (other_address ∷ ip_network (ip4 192 168 1 6) 29 32 ∷ []);
}

abbrev down : Interface
down = record lan { up = false }

planned :
    (local_subnet_plan (down ∷ lan ∷ lan ∷ [])).candidates
    ≡ 3232235777 ∷ 3232235778 ∷ 3232235779 ∷ 3232235780 ∷ 3232235781 ∷ []
unfolding local_subnet_plan add_interface add_addresses add_address add_subnet add_offsets
    is_searched is_eligible is_local_network_ip is_private is_loopback is_link_local
planned = refl

bytes : All (λ i. All HasBytes (or_no_addresses i.addresses)) (lan ∷ [])
bytes = ((tt, ((omega arith, omega arith, omega arith, omega arith), tt)), tt)

local_subnet_plan-IsPlanned_example :
    IsPlanned
      (λ v. IsNearby (lan ∷ []) v × (is_local_network_ip (ip_of v) ≡ true))
      (local_subnet_plan (lan ∷ [])).candidates
      (local_subnet_plan (lan ∷ [])).is_full
local_subnet_plan-IsPlanned_example = local_subnet_plan-IsPlanned (lan ∷ []) bytes

nearby : IsNearby (lan ∷ []) 3232235778
unfolding is_searched is_eligible is_local_network_ip is_private is_loopback is_link_local
nearby = inl (
  refl,
  inr (
      inl (
        refl,
        record { behind = omega arith; in_front = omega arith; not_local = λ e. ground arith },
      )),
)

local_subnet_plan-IsCovered_example :
    IsCovered 3232235778
      (local_subnet_plan (lan ∷ [])).candidates
      (local_subnet_plan (lan ∷ [])).is_full
local_subnet_plan-IsCovered_example = local_subnet_plan-IsCovered (lan ∷ []) 3232235778 bytes nearby

abbrev first : Device
first = record {
  instance_id = codes "i";
  name = codes "pc";
  address = ip4 10 0 0 7;
  port = pos 8765;
}

abbrev second : Device
second = record {
  instance_id = codes "j";
  name = codes "pc";
  address = ip4 10 0 0 10;
  port = pos 8765;
}

abbrev one_order : List ProbeResult
one_order = compatible first ∷ unreachable ∷ compatible second ∷ []

abbrev other_order : List ProbeResult
other_order = compatible second ∷ compatible first ∷ unreachable ∷ []

reordered : IsReordered one_order other_order
reordered = in_turn (behind exchanged) exchanged

own : HaveOwnAddresses (compatible_devices one_order)
unfolding ip_text itoa_ℕ
own = (((λ e. ground arith), tt), (tt, tt))

found : discover_at_addresses one_order ≡ second ∷ first ∷ []
unfolding discover_at_addresses collect_devices sort_devices is_before bytes_lt device_key ip_text
    itoa itoa_ℕ bytes_eq
found = refl

discover_at_addresses-IsReordered_example :
    discover_at_addresses one_order ≡ discover_at_addresses other_order
discover_at_addresses-IsReordered_example =
    discover_at_addresses-IsReordered one_order other_order reordered own
