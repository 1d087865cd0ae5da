-- ===== src/Pairing/Subnets/Complete.antt =====
-- No host nearby is left out of a plan that does not stop early.
use otherhost.Base.{ℕ, ◌≡◌, inl, inr, true, false, List, [], ◌∷◌, arith, All, Bool-cases}
use otherhost.Pairing.Local.{ip4, ip6, no_ip}
use otherhost.Pairing.Subnets.Planned.{
  HasBytes, IsHostOf, IsHostOfAny, IsNearby, bounded_prefix-IsSize,
}
use otherhost.Pairing.Subnets.Covering.{IsCovered, add_offsets-keeps, add_subnet-Covers}
use otherhost.Pairing.Subnets.{
  Address, Interface, SubnetPlan, add_address, add_addresses, add_interface, add_interfaces,
  add_subnet, bounded_prefix, ip_network, is_eligible, is_searched, is_seen, local_subnet_plan,
  or_no_addresses, other_address, value_of,
}

abbrev IsIn : ℕ → SubnetPlan → Type 0
IsIn v plan = is_seen plan.candidates v ≡ true

abbrev IsCoveredBy : ℕ → SubnetPlan → Type 0
IsCoveredBy v plan = IsCovered v plan.candidates plan.is_full

add_address-IsIn :
    (a : Address) (plan : SubnetPlan) (v : ℕ) → IsIn v plan → IsIn v (add_address a plan)
unfolding add_address add_subnet
add_address-IsIn other_address plan v h = h
add_address-IsIn (ip_network no_ip prefix bits) plan v h = h
add_address-IsIn (ip_network (ip6 a b c d e i j k) prefix bits) plan v h = h
add_address-IsIn (ip_network (ip4 a b c d) prefix bits) plan v h =
    elim (Bool-cases (is_searched (ip4 a b c d) prefix bits)) [
      | inl s ↦ rw s (add_offsets-keeps _ _ _ 1 plan.candidates v h)
      | inr s ↦ rw s h
    ]

add_address-IsCoveredBy :
    (a : Address) (plan : SubnetPlan) (v : ℕ)
    → HasBytes a
    → IsHostOf a v
    → IsCoveredBy v (add_address a plan)
unfolding add_address
add_address-IsCoveredBy other_address plan v h i = absurd i
add_address-IsCoveredBy (ip_network no_ip prefix bits) plan v h i = absurd i
add_address-IsCoveredBy (ip_network (ip6 a b c d e f g k) prefix bits) plan v h i = absurd i
add_address-IsCoveredBy (ip_network (ip4 a b c d) prefix bits) plan v (ha, hb, hc, hd) (s, i) =
    rw s (
      add_subnet-Covers (value_of a b c d) (bounded_prefix prefix) v plan
        (bounded_prefix-IsSize (ip4 a b c d) prefix bits s) (omega (arith, ha, hb, hc, hd)) i)

IsIn-unfinished :
    (v : ℕ) (plan : SubnetPlan) → IsCoveredBy v plan → plan.is_full ≡ false → IsIn v plan
IsIn-unfinished v plan (inl f) e = absurd (ground arith)
IsIn-unfinished v plan (inr h) e = h

add_addresses-IsIn :
    (addresses : List Address) (plan : SubnetPlan) (v : ℕ)
    → IsIn v plan
    → IsIn v (add_addresses addresses plan)
unfolding add_addresses
add_addresses-IsIn [] plan v h = h
add_addresses-IsIn (a ∷ addresses) plan v h =
    let next = add_address-IsIn a plan v h in
    elim (Bool-cases (add_address a plan).is_full) [
      | inl e ↦ rw (e, add_addresses) next
      | inr e ↦ rw (e, add_addresses) (add_addresses-IsIn addresses _ v next)
    ]

add_addresses-IsCoveredBy :
    (addresses : List Address) (plan : SubnetPlan) (v : ℕ)
    → All HasBytes addresses
    → IsHostOfAny addresses v
    → IsCoveredBy v (add_addresses addresses plan)
unfolding add_addresses
add_addresses-IsCoveredBy [] plan v h i = absurd i
add_addresses-IsCoveredBy (a ∷ addresses) plan v h (inl i) =
    let next = add_address-IsCoveredBy a plan v h.0 i in
    elim (Bool-cases (add_address a plan).is_full) [
      | inl e ↦ rw (e, add_addresses) (inl e)
      | inr e ↦
          rw (e, add_addresses)
            (inr (add_addresses-IsIn addresses _ v (IsIn-unfinished v (add_address a plan) next e)))
    ]
add_addresses-IsCoveredBy (a ∷ addresses) plan v h (inr i) =
    elim (Bool-cases (add_address a plan).is_full) [
      | inl e ↦ rw (e, add_addresses) (inl e)
      | inr e ↦ rw (e, add_addresses) (add_addresses-IsCoveredBy addresses _ v h.1 i)
    ]

add_interface-IsIn :
    (i : Interface) (plan : SubnetPlan) (v : ℕ) → IsIn v plan → IsIn v (add_interface i plan)
unfolding add_interface
add_interface-IsIn i plan v h = elim (Bool-cases (is_eligible i)) [
  | inl e ↦ rw e (add_addresses-IsIn (or_no_addresses i.addresses) plan v h)
  | inr e ↦ rw e h
]

add_interface-IsCoveredBy :
    (i : Interface) (plan : SubnetPlan) (v : ℕ)
    → All HasBytes (or_no_addresses i.addresses)
    → is_eligible i ≡ true
    → IsHostOfAny (or_no_addresses i.addresses) v
    → IsCoveredBy v (add_interface i plan)
unfolding add_interface
add_interface-IsCoveredBy i plan v h e n =
    rw e (add_addresses-IsCoveredBy (or_no_addresses i.addresses) plan v h n)

add_interfaces-IsIn :
    (interfaces : List Interface) (plan : SubnetPlan) (v : ℕ)
    → IsIn v plan
    → IsIn v (add_interfaces interfaces plan)
unfolding add_interfaces
add_interfaces-IsIn [] plan v h = h
add_interfaces-IsIn (i ∷ interfaces) plan v h =
    let next = add_interface-IsIn i plan v h in
    elim (Bool-cases (add_interface i plan).is_full) [
      | inl e ↦ rw (e, add_interfaces) next
      | inr e ↦ rw (e, add_interfaces) (add_interfaces-IsIn interfaces _ v next)
    ]

add_interfaces-IsCoveredBy :
    (interfaces : List Interface) (plan : SubnetPlan) (v : ℕ)
    → All (λ i. All HasBytes (or_no_addresses i.addresses)) interfaces
    → IsNearby interfaces v
    → IsCoveredBy v (add_interfaces interfaces plan)
unfolding add_interfaces
add_interfaces-IsCoveredBy [] plan v h n = absurd n
add_interfaces-IsCoveredBy (i ∷ interfaces) plan v h (inl (e, n)) =
    let next = add_interface-IsCoveredBy i plan v h.0 e n in
    elim (Bool-cases (add_interface i plan).is_full) [
      | inl f ↦ rw (f, add_interfaces) (inl f)
      | inr f ↦
          rw (f, add_interfaces)
            (inr (
              add_interfaces-IsIn interfaces _ v (IsIn-unfinished v (add_interface i plan) next f)))
    ]
add_interfaces-IsCoveredBy (i ∷ interfaces) plan v h (inr n) =
    elim (Bool-cases (add_interface i plan).is_full) [
      | inl f ↦ rw (f, add_interfaces) (inl f)
      | inr f ↦ rw (f, add_interfaces) (add_interfaces-IsCoveredBy interfaces _ v h.1 n)
    ]

-- Unless it stops early at 1024 addresses, the plan of a search has every host address, except its own,
-- of the subnet of each address of an eligible interface, where a subnet with a prefix below 24 is bounded
-- to the 256 addresses around that address. So of a /23 network only the half of the own address is
-- planned, although the source's comment says that a /23 keeps its prefix.
pub local_subnet_plan-IsCovered :
    (interfaces : List Interface) (v : ℕ)
    → All (λ i. All HasBytes (or_no_addresses i.addresses)) interfaces
    → IsNearby interfaces v
    → IsCovered v (local_subnet_plan interfaces).candidates (local_subnet_plan interfaces).is_full
unfolding local_subnet_plan
local_subnet_plan-IsCovered interfaces v h n = add_interfaces-IsCoveredBy interfaces _ v h n
