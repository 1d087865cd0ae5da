-- ===== src/Pairing/Subnets/Planned.antt =====
-- What `localSubnetPlan` (internal/pairing/discovery.go) plans to ask.
use otherhost.Base.{
  ℕ, ◌+◌, ◌-◌, ◌%◌, ◌^◌, ◌<◌, ◌≤◌, ◌≡◌, ◌≢◌, ◌⊎◌, refl, inl, inr, subst, true, false, List, [], ◌∷◌,
  arith, All, Bool-cases,
}
use otherhost.Pairing.Local.{Ip, ip4, ip6, is_local_network_ip, no_ip}
use otherhost.Pairing.Subnets.Hosts.{
  AtOffsets, IsHost, IsHost-block, IsPlanned, IsSize, IsSize-bounds, add_offsets-IsPlanned, is_24,
  is_25, is_26, is_27, is_28, is_29, is_30, same_block_local,
}
use otherhost.Pairing.Subnets.{
  Address, Interface, SubnetPlan, add_address, add_addresses, add_interface, add_interfaces,
  add_subnet, address_count, bounded_prefix, ip_network, ip_of, is_eligible, is_searched,
  local_subnet_plan, network_of, or_no_addresses, other_address, value_of,
}

-- The parts of an IPv4 address are bytes.
abbrev pub HasBytes : Address → Type 0
HasBytes (ip_network (ip4 a b c d) prefix bits) = (a < 256) × (b < 256) × (c < 256) × (d < 256)
HasBytes (ip_network (ip6 a b c d e f g h) prefix bits) = Unit {0}
HasBytes (ip_network no_ip prefix bits) = Unit {0}
HasBytes other_address = Unit {0}

-- An address that is searched around, and a host of its subnet.
abbrev pub IsHostOf : Address → ℕ → Type 0
IsHostOf (ip_network (ip4 a b c d) prefix bits) v =
    (is_searched (ip4 a b c d) prefix bits ≡ true)
    × IsHost (value_of a b c d) (bounded_prefix prefix) v
IsHostOf (ip_network (ip6 a b c d e f g h) prefix bits) v = ⊥
IsHostOf (ip_network no_ip prefix bits) v = ⊥
IsHostOf other_address v = ⊥

abbrev pub IsHostOfAny : List Address → ℕ → Type 0
IsHostOfAny [] v = ⊥
IsHostOfAny (a ∷ addresses) v = IsHostOf a v ⊎ IsHostOfAny addresses v

-- A host of the subnet of some address of an eligible interface.
abbrev pub IsNearby : List Interface → ℕ → Type 0
IsNearby [] v = ⊥
IsNearby (i ∷ interfaces) v =
    ((is_eligible i ≡ true) × IsHostOfAny (or_no_addresses i.addresses) v) ⊎ IsNearby interfaces v

-- The value of an offset does not wrap around.
pub offset_value :
    (local prefix j : ℕ)
    → IsSize prefix
    → local < 2 ^ 32
    → 1 ≤ j
    → j < 1 + (address_count prefix - 2)
    → (network_of local prefix + j) % 2 ^ 32 ≡ network_of local prefix + j
offset_value local prefix j is_24 l a b = omega arith
offset_value local prefix j is_25 l a b = omega arith
offset_value local prefix j is_26 l a b = omega arith
offset_value local prefix j is_27 l a b = omega arith
offset_value local prefix j is_28 l a b = omega arith
offset_value local prefix j is_29 l a b = omega arith
offset_value local prefix j is_30 l a b = omega arith

offset_in_front :
    (local prefix j : ℕ)
    → IsSize prefix
    → local < 2 ^ 32
    → 1 ≤ j
    → j < 1 + (address_count prefix - 2)
    → (network_of local prefix + j) + 1 < network_of local prefix + address_count prefix
offset_in_front local prefix j is_24 l a b = omega arith
offset_in_front local prefix j is_25 l a b = omega arith
offset_in_front local prefix j is_26 l a b = omega arith
offset_in_front local prefix j is_27 l a b = omega arith
offset_in_front local prefix j is_28 l a b = omega arith
offset_in_front local prefix j is_29 l a b = omega arith
offset_in_front local prefix j is_30 l a b = omega arith

offset-IsHost :
    (local prefix j : ℕ)
    → IsSize prefix
    → local < 2 ^ 32
    → 1 ≤ j
    → j < 1 + (address_count prefix - 2)
    → (network_of local prefix + j) % 2 ^ 32 ≢ local
    → IsHost local prefix ((network_of local prefix + j) % 2 ^ 32)
offset-IsHost local prefix j s l a b n =
    let v = offset_value local prefix j s l a b in
    record {
      behind = omega (arith, v, a);
      in_front = omega (arith, v, offset_in_front local prefix j s l a b);
      not_local = n;
    }

pub bounded_prefix-IsSize :
    (ip : Ip) (prefix bits : ℕ) → is_searched ip prefix bits ≡ true → IsSize (bounded_prefix prefix)
unfolding is_searched
bounded_prefix-IsSize ip prefix bits h =
    IsSize-bounds (bounded_prefix prefix) (ground arith) (ground arith)

is_searched-local :
    (ip : Ip) (prefix bits : ℕ) → is_searched ip prefix bits ≡ true → is_local_network_ip ip ≡ true
unfolding is_searched
is_searched-local ip prefix bits h = ground arith

module _ (P : ℕ → Type 0) where
  -- A plan with its bound, without repetitions, whose candidates have the property.
  abbrev IsGood : SubnetPlan → Type 0
  IsGood plan = IsPlanned P plan.candidates plan.is_full

  add_subnet-IsGood :
      (local prefix : ℕ) (plan : SubnetPlan)
      → AtOffsets P (network_of local prefix) local (address_count prefix - 2) 1
      → plan.is_full ≡ false
      → IsGood plan
      → IsGood (add_subnet local prefix plan)
  unfolding add_subnet
  add_subnet-IsGood local prefix plan f n g =
      add_offsets-IsPlanned P (network_of local prefix) local (address_count prefix - 2) 1
        plan.candidates f (subst (IsPlanned P plan.candidates) n g)

  add_address-IsGood :
      (a : Address) (plan : SubnetPlan)
      → HasBytes a
      → ((v : ℕ) → IsHostOf a v → P v)
      → plan.is_full ≡ false
      → IsGood plan
      → IsGood (add_address a plan)
  unfolding add_address
  add_address-IsGood other_address plan h f n g = g
  add_address-IsGood (ip_network no_ip prefix bits) plan h f n g = g
  add_address-IsGood (ip_network (ip6 a b c d e i j k) prefix bits) plan h f n g = g
  add_address-IsGood (ip_network (ip4 a b c d) prefix bits) plan (ha, hb, hc, hd) f n g =
      elim (Bool-cases (is_searched (ip4 a b c d) prefix bits)) [
        | inl s ↦
            let size = bounded_prefix-IsSize (ip4 a b c d) prefix bits s in
            let local = value_of a b c d in
            let small : local < 2 ^ 32 = omega (arith, ha, hb, hc, hd) in
            let hosts : AtOffsets P (network_of local (bounded_prefix prefix)) local
                (address_count (bounded_prefix prefix) - 2) 1 =
              λ j x y z. f _ (s, offset-IsHost local (bounded_prefix prefix) j size small x y z) in
            rw s (add_subnet-IsGood local (bounded_prefix prefix) plan hosts n g)
        | inr s ↦ rw s g
      ]

  add_addresses-IsGood :
      (addresses : List Address) (plan : SubnetPlan)
      → All HasBytes addresses
      → ((v : ℕ) → IsHostOfAny addresses v → P v)
      → plan.is_full ≡ false
      → IsGood plan
      → IsGood (add_addresses addresses plan)
  unfolding add_addresses
  add_addresses-IsGood [] plan h f n g = g
  add_addresses-IsGood (a ∷ addresses) plan h f n g =
      let next = add_address-IsGood a plan h.0 (λ v i. f v (inl i)) n g in
      elim (Bool-cases (add_address a plan).is_full) [
        | inl e ↦ rw (e, add_addresses) next
        | inr e ↦
            rw (e, add_addresses) (add_addresses-IsGood addresses _ h.1 (λ v i. f v (inr i)) e next)
      ]

  add_interface-IsGood :
      (i : Interface) (plan : SubnetPlan)
      → All HasBytes (or_no_addresses i.addresses)
      → ((v : ℕ) → is_eligible i ≡ true → IsHostOfAny (or_no_addresses i.addresses) v → P v)
      → plan.is_full ≡ false
      → IsGood plan
      → IsGood (add_interface i plan)
  unfolding add_interface
  add_interface-IsGood i plan h f n g = elim (Bool-cases (is_eligible i)) [
    | inl e ↦ rw e (add_addresses-IsGood (or_no_addresses i.addresses) plan h (λ v. f v e) n g)
    | inr e ↦ rw e g
  ]

  add_interfaces-IsGood :
      (interfaces : List Interface) (plan : SubnetPlan)
      → All (λ i. All HasBytes (or_no_addresses i.addresses)) interfaces
      → ((v : ℕ) → IsNearby interfaces v → P v)
      → plan.is_full ≡ false
      → IsGood plan
      → IsGood (add_interfaces interfaces plan)
  unfolding add_interfaces
  add_interfaces-IsGood [] plan h f n g = g
  add_interfaces-IsGood (i ∷ interfaces) plan h f n g =
      let next = add_interface-IsGood i plan h.0 (λ v e k. f v (inl (e, k))) n g in
      elim (Bool-cases (add_interface i plan).is_full) [
        | inl e ↦ rw (e, add_interfaces) next
        | inr e ↦
            rw (e, add_interfaces)
              (add_interfaces-IsGood interfaces _ h.1 (λ v k. f v (inr k)) e next)
      ]

-- The hosts of a subnet that is searched are local.
IsHostOf-local :
    (a : Address) (v : ℕ) → HasBytes a → IsHostOf a v → is_local_network_ip (ip_of v) ≡ true
IsHostOf-local other_address v h i = absurd i
IsHostOf-local (ip_network no_ip prefix bits) v h i = absurd i
IsHostOf-local (ip_network (ip6 a b c d e f g k) prefix bits) v h i = absurd i
IsHostOf-local (ip_network (ip4 a b c d) prefix bits) v (ha, hb, hc, hd) (s, i) =
    same_block_local a b c d v ha hb hc hd
      (IsHost-block (value_of a b c d) (bounded_prefix prefix) v
        (bounded_prefix-IsSize (ip4 a b c d) prefix bits s) i)
      (is_searched-local (ip4 a b c d) prefix bits s)

IsHostOfAny-local :
    (addresses : List Address) (v : ℕ)
    → All HasBytes addresses
    → IsHostOfAny addresses v
    → is_local_network_ip (ip_of v) ≡ true
IsHostOfAny-local [] v h i = absurd i
IsHostOfAny-local (a ∷ addresses) v h (inl i) = IsHostOf-local a v h.0 i
IsHostOfAny-local (a ∷ addresses) v h (inr i) = IsHostOfAny-local addresses v h.1 i

IsNearby-local :
    (interfaces : List Interface) (v : ℕ)
    → All (λ i. All HasBytes (or_no_addresses i.addresses)) interfaces
    → IsNearby interfaces v
    → is_local_network_ip (ip_of v) ≡ true
IsNearby-local [] v h n = absurd n
IsNearby-local (i ∷ interfaces) v h (inl (e, n)) =
    IsHostOfAny-local (or_no_addresses i.addresses) v h.0 n
IsNearby-local (i ∷ interfaces) v h (inr n) = IsNearby-local interfaces v h.1 n

-- Whatever interfaces a machine has, with addresses of bytes: the search plans to ask at most 1024
-- addresses, exactly 1024 where it stops early and fewer where it does not, none twice. Each of them is
-- in the subnet of some address of an eligible interface, differs from that address, and is neither the
-- network's nor the broadcast address; a subnet with a prefix below 24, a /23 included, is bounded to the
-- 256 addresses around that address. And each of them is itself a local address.
pub local_subnet_plan-IsPlanned :
    (interfaces : List Interface)
    → All (λ i. All HasBytes (or_no_addresses i.addresses)) interfaces
    → IsPlanned
        (λ v. IsNearby interfaces v × (is_local_network_ip (ip_of v) ≡ true))
        (local_subnet_plan interfaces).candidates
        (local_subnet_plan interfaces).is_full
unfolding local_subnet_plan
local_subnet_plan-IsPlanned interfaces h =
    add_interfaces-IsGood (λ v. IsNearby interfaces v × (is_local_network_ip (ip_of v) ≡ true))
      interfaces _ h (λ v n. (n, IsNearby-local interfaces v h n)) refl
      (record { bounded = omega arith; distinct = tt; hosts = tt })
