-- ===== src/Pairing/Probes/Arrival.antt =====
-- The order in which answers arrive makes no difference to the list of devices.
use otherhost.Base.Reordered.{IsReordered, behind, exchanged, in_turn, same}
use otherhost.Base.{
  ◌≡◌, ◌≢◌, refl, sym, ap, ◌∙◌, inl, inr, false, List, [], ◌∷◌, ◌++◌, append_assoc, append-nil,
  subst, All, bytes_eq, bytes_eq_iff, Bool-cases,
}
use otherhost.Pairing.Discovery.{Device}
use otherhost.Pairing.Probes.Keys.{device_key-address}
use otherhost.Pairing.Probes.Order.{insert_device_comm}
use otherhost.Pairing.Probes.{
  ProbeResult, collect_devices, compatible, device_key, discover_at_addresses, has_key,
  insert_device, invalid_response, ip_text, sort_devices, unreachable,
}

-- The devices that answered as they should.
abbrev pub compatible_devices : List ProbeResult → List Device
compatible_devices [] = []
compatible_devices (unreachable ∷ results) = compatible_devices results
compatible_devices (invalid_response ∷ results) = compatible_devices results
compatible_devices (compatible d ∷ results) = d ∷ compatible_devices results

-- No two devices have one address.
abbrev pub HaveOwnAddresses : List Device → Type 0
HaveOwnAddresses [] = Unit {0}
HaveOwnAddresses (d ∷ devices) =
    All (λ e. ip_text d.address ≢ ip_text e.address) devices × HaveOwnAddresses devices

compatible_devices-exchanged :
    (x y : ProbeResult) (l : List ProbeResult)
    → IsReordered (compatible_devices (x ∷ y ∷ l)) (compatible_devices (y ∷ x ∷ l))
compatible_devices-exchanged (compatible d) (compatible e) l = exchanged
compatible_devices-exchanged (compatible d) unreachable l = same
compatible_devices-exchanged (compatible d) invalid_response l = same
compatible_devices-exchanged unreachable (compatible e) l = same
compatible_devices-exchanged unreachable unreachable l = same
compatible_devices-exchanged unreachable invalid_response l = same
compatible_devices-exchanged invalid_response (compatible e) l = same
compatible_devices-exchanged invalid_response unreachable l = same
compatible_devices-exchanged invalid_response invalid_response l = same

compatible_devices-behind :
    (x : ProbeResult) (a b : List ProbeResult)
    → IsReordered (compatible_devices a) (compatible_devices b)
    → IsReordered (compatible_devices (x ∷ a)) (compatible_devices (x ∷ b))
compatible_devices-behind unreachable a b r = r
compatible_devices-behind invalid_response a b r = r
compatible_devices-behind (compatible d) a b r = behind r

compatible_devices-IsReordered :
    {a b : List ProbeResult}
    → IsReordered a b
    → IsReordered (compatible_devices a) (compatible_devices b)
compatible_devices-IsReordered same = same
compatible_devices-IsReordered (behind {x} {a} {b} r) =
    compatible_devices-behind x a b (compatible_devices-IsReordered r)
compatible_devices-IsReordered (exchanged {x} {y} {l}) = compatible_devices-exchanged x y l
compatible_devices-IsReordered (in_turn r s) =
    in_turn (compatible_devices-IsReordered r) (compatible_devices-IsReordered s)

module _ (P : Device → Type 0) where
  All-IsReordered : {a b : List Device} → IsReordered a b → All P a → All P b
  All-IsReordered same h = h
  All-IsReordered (behind r) h = (h.0, All-IsReordered r h.1)
  All-IsReordered exchanged h = (h.1.0, (h.0, h.1.1))
  All-IsReordered (in_turn r s) h = All-IsReordered s (All-IsReordered r h)

HaveOwnAddresses-IsReordered :
    {a b : List Device} → IsReordered a b → HaveOwnAddresses a → HaveOwnAddresses b
HaveOwnAddresses-IsReordered same h = h
HaveOwnAddresses-IsReordered (behind r) h =
    (All-IsReordered _ r h.0, HaveOwnAddresses-IsReordered r h.1)
HaveOwnAddresses-IsReordered exchanged h = (((λ e. h.0.0 (sym e)), h.1.0), (h.0.1, h.1.1))
HaveOwnAddresses-IsReordered (in_turn r s) h =
    HaveOwnAddresses-IsReordered s (HaveOwnAddresses-IsReordered r h)

sort_devices-IsReordered :
    {a b : List Device} → IsReordered a b → HaveOwnAddresses a → sort_devices a ≡ sort_devices b
unfolding sort_devices
sort_devices-IsReordered same h = refl
sort_devices-IsReordered (behind {x} r) h = ap (insert_device x) (sort_devices-IsReordered r h.1)
sort_devices-IsReordered (exchanged {x} {y} {l}) h = insert_device_comm x y (sort_devices l) h.0.0
sort_devices-IsReordered (in_turn r s) h =
    sort_devices-IsReordered r h ∙ sort_devices-IsReordered s (HaveOwnAddresses-IsReordered r h)

-- A device with another address than those that are listed has a new key.
has_key-new :
    (d : Device) (devices : List Device)
    → All (λ e. ip_text d.address ≢ ip_text e.address) devices
    → has_key (device_key d) devices ≡ false
has_key-new d [] h = refl
has_key-new d (e ∷ devices) h = elim (Bool-cases (bytes_eq (device_key e) (device_key d))) [
  | inl q ↦
      absurd (h.0 (device_key-address d e (sym ((bytes_eq_iff (device_key e) (device_key d)).0 q))))
  | inr q ↦ rw q (has_key-new d devices h.1)
]

All-middle : (P : Device → Type 0) (a b : List Device) (d : Device) → All P (a ++ (d ∷ b)) → P d
All-middle P [] b d h = h.0
All-middle P (x ∷ a) b d h = All-middle P a b d h.1

own_address :
    (a b : List Device) (d : Device)
    → HaveOwnAddresses (a ++ (d ∷ b))
    → All (λ e. ip_text d.address ≢ ip_text e.address) a
own_address [] b d h = tt
own_address (x ∷ a) b d h = (
  (λ e. All-middle (λ y. ip_text x.address ≢ ip_text y.address) a b d h.0 (sym e)),
  own_address a b d h.1,
)

-- With own addresses no answer is dropped.
collect_devices-all :
    (devices : List Device) (results : List ProbeResult)
    → HaveOwnAddresses (devices ++ compatible_devices results)
    → collect_devices devices results ≡ devices ++ compatible_devices results
unfolding collect_devices
collect_devices-all devices [] h = sym (append-nil devices)
collect_devices-all devices (unreachable ∷ results) h = collect_devices-all devices results h
collect_devices-all devices (invalid_response ∷ results) h = collect_devices-all devices results h
collect_devices-all devices (compatible d ∷ results) h =
    let later = compatible_devices results in
    let there = append_assoc devices (d ∷ []) later in
    rw (has_key-new d devices (own_address devices later d h)) (
      collect_devices-all (devices ++ (d ∷ [])) results (subst HaveOwnAddresses (sym there) h)
      ∙ there)

-- Where each device has answered at an address of its own, as where each address is asked once, the list
-- that a search returns does not depend on the order in which the concurrent probes come back.
pub discover_at_addresses-IsReordered :
    (a b : List ProbeResult)
    → IsReordered a b
    → HaveOwnAddresses (compatible_devices a)
    → discover_at_addresses a ≡ discover_at_addresses b
unfolding discover_at_addresses
discover_at_addresses-IsReordered a b r h =
    let devices = compatible_devices-IsReordered r in
    ap sort_devices (collect_devices-all [] a h)
    ∙ sort_devices-IsReordered devices h
    ∙ ap sort_devices (sym (collect_devices-all [] b (HaveOwnAddresses-IsReordered devices h)))
