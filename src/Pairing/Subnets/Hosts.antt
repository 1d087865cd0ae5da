-- ===== src/Pairing/Subnets/Hosts.antt =====
-- The addresses of a subnet that is searched.
use otherhost.Base.{
  ℕ, zero, suc, ◌+◌, ◌-◌, ◌/◌, ◌%◌, ◌^◌, ◌<◌, ◌≤◌, ◌≡◌, ◌≢◌, refl, inl, inr, Bool, true, false,
  ◌||◌, List, [], ◌∷◌, ◌++◌, arith, ◌==◌, All, All-append, Bool-cases, length, length-append, subst,
}
use otherhost.Pairing.Local.{ip4, is_link_local, is_local_network_ip, is_loopback, is_private}
use otherhost.Pairing.Subnets.{
  add_offsets, address_count, ip_of, is_seen, max_subnet_candidates, network_of, value_of,
}

-- A host of the subnet of a local address, and not the address itself: behind the network's own address
-- and in front of the broadcast address.
pub record IsHost (local prefix v : ℕ) : Type 0 where
  pub behind : network_of local prefix < v
  pub in_front : v + 1 < network_of local prefix + address_count prefix
  pub not_local : v ≢ local

pub data IsSize : ℕ → Type 0 where
  is_24 : IsSize 24
  is_25 : IsSize 25
  is_26 : IsSize 26
  is_27 : IsSize 27
  is_28 : IsSize 28
  is_29 : IsSize 29
  is_30 : IsSize 30

-- A subnet with a prefix of 24 or more lies in one block of 256 addresses.
pub IsHost-block :
    (local prefix v : ℕ) → IsSize prefix → IsHost local prefix v → v / 256 ≡ local / 256
IsHost-block local prefix v is_24 h = omega (arith, h.behind, h.in_front)
IsHost-block local prefix v is_25 h = omega (arith, h.behind, h.in_front)
IsHost-block local prefix v is_26 h = omega (arith, h.behind, h.in_front)
IsHost-block local prefix v is_27 h = omega (arith, h.behind, h.in_front)
IsHost-block local prefix v is_28 h = omega (arith, h.behind, h.in_front)
IsHost-block local prefix v is_29 h = omega (arith, h.behind, h.in_front)
IsHost-block local prefix v is_30 h = omega (arith, h.behind, h.in_front)

IsSize-above : (k : ℕ) → k ≤ 6 → IsSize (24 + k)
IsSize-above zero h = is_24
IsSize-above (suc zero) h = is_25
IsSize-above (suc (suc zero)) h = is_26
IsSize-above (suc (suc (suc zero))) h = is_27
IsSize-above (suc (suc (suc (suc zero)))) h = is_28
IsSize-above (suc (suc (suc (suc (suc zero))))) h = is_29
IsSize-above (suc (suc (suc (suc (suc (suc zero)))))) h = is_30
IsSize-above (suc (suc (suc (suc (suc (suc (suc k))))))) h = absurd (omega arith)

pub IsSize-bounds : (prefix : ℕ) → 24 ≤ prefix → prefix ≤ 30 → IsSize prefix
IsSize-bounds prefix a b =
    subst IsSize (omega (arith, a)) (IsSize-above (prefix - 24) (omega arith))

-- Whether an address is local is decided by its first three bytes.
pub same_block_local :
    (a b c d v : ℕ)
    → a < 256
    → b < 256
    → c < 256
    → d < 256
    → v / 256 ≡ value_of a b c d / 256
    → is_local_network_ip (ip4 a b c d) ≡ true
    → is_local_network_ip (ip_of v) ≡ true
unfolding is_local_network_ip is_private is_loopback is_link_local
same_block_local a b c d v ha hb hc hd e h =
    let first : v / 16777216 % 256 ≡ a = omega arith in
    let second : v / 65536 % 256 ≡ b = omega arith in rw (first, second) h

-- What is kept of a plan: no address twice.
abbrev pub AreDistinct : List ℕ → Type 0
AreDistinct [] = Unit {0}
AreDistinct (v ∷ vs) = (is_seen vs v ≡ false) × AreDistinct vs

is_seen-append :
    (vs : List ℕ) (v w : ℕ) → is_seen vs w ≡ false → v ≢ w → is_seen (vs ++ (v ∷ [])) w ≡ false
is_seen-append [] v w h d = ground arith
is_seen-append (u ∷ vs) v w h d = ground (arith, is_seen-append vs v w)

AreDistinct-append :
    (vs : List ℕ) (v : ℕ) → is_seen vs v ≡ false → AreDistinct vs → AreDistinct (vs ++ (v ∷ []))
AreDistinct-append [] v h d = (refl, tt)
AreDistinct-append (u ∷ vs) v h d =
    (is_seen-append vs v u d.0 (λ e. ground arith), AreDistinct-append vs v (ground arith) d.1)

-- Fewer candidates than the bound, or exactly so many where the search for them has ended early.
abbrev pub IsBounded : List ℕ → Bool → Type 0
IsBounded vs false = length vs < max_subnet_candidates
IsBounded vs true = length vs ≡ max_subnet_candidates

module _ (P : ℕ → Type 0) where
  pub record IsPlanned (vs : List ℕ) (full : Bool) : Type 0 where
    pub bounded : IsBounded vs full
    pub distinct : AreDistinct vs
    pub hosts : All P vs

  -- What holds of the hosts at the offsets that are left.
  abbrev pub AtOffsets : ℕ → ℕ → ℕ → ℕ → Type 0
  AtOffsets network local left offset =
      (j : ℕ)
      → offset ≤ j
      → j < offset + left
      → (network + j) % 2 ^ 32 ≢ local
      → P ((network + j) % 2 ^ 32)

  AtOffsets-suc :
      (network local left offset : ℕ)
      → AtOffsets network local (suc left) offset
      → AtOffsets network local left (suc offset)
  AtOffsets-suc network local left offset f j a b = f j (omega (arith, a)) (omega (arith, b))

  grown-IsPlanned :
      (result : List ℕ) (value : ℕ) (full : Bool)
      → is_seen result value ≡ false
      → P value
      → IsBounded (result ++ (value ∷ [])) full
      → IsPlanned result false
      → IsPlanned (result ++ (value ∷ [])) full
  grown-IsPlanned result value full s h b p = record {
    bounded = b;
    distinct = AreDistinct-append result value s p.distinct;
    hosts = All-append P result (value ∷ []) p.hosts (h, tt);
  }

  pub add_offsets-IsPlanned :
      (network local left offset : ℕ) (result : List ℕ)
      → AtOffsets network local left offset
      → IsPlanned result false
      → IsPlanned
          (add_offsets network local left offset result).0
          (add_offsets network local left offset result).1
  unfolding add_offsets
  add_offsets-IsPlanned network local zero offset result f p = p
  add_offsets-IsPlanned network local (suc left) offset result f p =
      let value = (network + offset) % 2 ^ 32 in
      let grown = result ++ (value ∷ []) in
      let later = AtOffsets-suc network local left offset f in
      let size = length-append result (value ∷ []) in
      elim (Bool-cases (value == local || is_seen result value)) [
        | inl e ↦
            rw (e, add_offsets)
              (add_offsets-IsPlanned network local left (suc offset) result later p)
        | inr e ↦
            let host = f offset (omega arith) (omega arith) (λ q. ground (arith, e)) in
            elim (Bool-cases (length grown == max_subnet_candidates)) [
              | inl b ↦
                  rw (e, add_offsets, b)
                    (grown-IsPlanned result value true (ground (arith, e)) host (ground (arith, b))
                      p)
              | inr b ↦
                  rw (e, add_offsets, b)
                    (add_offsets-IsPlanned network local left (suc offset) grown later (
                      grown-IsPlanned result value false (ground (arith, e)) host
                        (ground (arith, b, size, p.bounded)) p))
            ]
      ]
