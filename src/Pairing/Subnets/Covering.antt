-- ===== src/Pairing/Subnets/Covering.antt =====
-- The loop over the offsets of a subnet leaves none of its hosts out.
use otherhost.Base.{
  ℕ, zero, suc, ◌+◌, ◌-◌, ◌%◌, ◌^◌, ◌<◌, ◌≤◌, ◌≡◌, ◌≢◌, ◌⊎◌, refl, sym, ◌∙◌, inl, inr, subst, Bool,
  true, ◌||◌, List, [], ◌∷◌, ◌++◌, arith, ◌==◌, ==_iff, Bool-cases, length,
}
use otherhost.Pairing.Subnets.Hosts.{
  IsHost, IsSize, is_24, is_25, is_26, is_27, is_28, is_29, is_30,
}
use otherhost.Pairing.Subnets.{
  SubnetPlan, add_offsets, add_subnet, address_count, is_seen, max_subnet_candidates, network_of,
}

is_seen_last : (vs : List ℕ) (v : ℕ) → is_seen (vs ++ (v ∷ [])) v ≡ true
is_seen_last [] v = ground arith
is_seen_last (u ∷ vs) v = ground (arith, is_seen_last vs v)

is_seen_kept : (vs : List ℕ) (v w : ℕ) → is_seen vs w ≡ true → is_seen (vs ++ (v ∷ [])) w ≡ true
is_seen_kept [] v w h = absurd (ground arith)
is_seen_kept (u ∷ vs) v w h = ground (arith, is_seen_kept vs v w)

-- What is a candidate stays one.
pub add_offsets-keeps :
    (network local left offset : ℕ) (result : List ℕ) (v : ℕ)
    → is_seen result v ≡ true
    → is_seen (add_offsets network local left offset result).0 v ≡ true
unfolding add_offsets
add_offsets-keeps network local zero offset result v h = h
add_offsets-keeps network local (suc left) offset result v h =
    let value = (network + offset) % 2 ^ 32 in
    let grown = result ++ (value ∷ []) in
    let kept = is_seen_kept result value v h in
    elim (Bool-cases (value == local || is_seen result value)) [
      | inl e ↦ rw (e, add_offsets) (add_offsets-keeps network local left (suc offset) result v h)
      | inr e ↦ elim (Bool-cases (length grown == max_subnet_candidates)) [
        | inl b ↦ rw (e, add_offsets, b) kept
        | inr b ↦
            rw (e, add_offsets, b) (add_offsets-keeps network local left (suc offset) grown v kept)
      ]
    ]

seen_there : (v local : ℕ) (s : Bool) → v ≢ local → (v == local || s) ≡ true → s ≡ true
seen_there v local s n e = ground arith

-- The search for candidates has stopped early, or this is one of them.
abbrev pub IsCovered : ℕ → List ℕ → Bool → Type 0
IsCovered v candidates full = (full ≡ true) ⊎ (is_seen candidates v ≡ true)

abbrev Covers : ℕ → List ℕ × Bool → Type 0
Covers v (candidates, full) = IsCovered v candidates full

-- A loop that begins with a candidate covers it, and every later offset.
add_offsets-Covers :
    (network local left offset : ℕ) (result : List ℕ) (j : ℕ)
    → offset ≤ j
    → j < offset + left
    → (network + j) % 2 ^ 32 ≢ local
    → Covers ((network + j) % 2 ^ 32) (add_offsets network local left offset result)
unfolding add_offsets
add_offsets-Covers network local zero offset result j a b n = absurd (omega arith)
add_offsets-Covers network local (suc left) offset result j a b n =
    let value = (network + offset) % 2 ^ 32 in
    let wanted = (network + j) % 2 ^ 32 in
    let grown = result ++ (value ∷ []) in
    elim (Bool-cases (value == local || is_seen result value)) [
      | inl e ↦
          rw (e, add_offsets)
            elim (Bool-cases (offset == j)) [
              | inl q ↦
                  let same : value ≡ wanted = omega (arith, (==_iff offset j).0 q) in
                  inr (
                    add_offsets-keeps network local left (suc offset) result wanted (
                      subst (λ w. is_seen result w ≡ true) same
                        (seen_there value local (is_seen result value) (λ p. n (sym same ∙ p)) e)))
              | inr q ↦
                  add_offsets-Covers network local left (suc offset) result j (ground (arith, a, q))
                    (omega (arith, b)) n
            ]
      | inr e ↦ elim (Bool-cases (length grown == max_subnet_candidates)) [
        | inl c ↦ rw (e, add_offsets, c) (inl refl)
        | inr c ↦
            rw (e, add_offsets, c)
              elim (Bool-cases (offset == j)) [
                | inl q ↦
                    let same : value ≡ wanted = omega (arith, (==_iff offset j).0 q) in
                    inr (
                      add_offsets-keeps network local left (suc offset) grown wanted
                        (subst (λ w. is_seen grown w ≡ true) same (is_seen_last result value)))
                | inr q ↦
                    add_offsets-Covers network local left (suc offset) grown j
                      (ground (arith, a, q)) (omega (arith, b)) n
              ]
      ]
    ]

-- A host stands at an offset of its subnet.
host_offset :
    (local prefix v : ℕ)
    → IsSize prefix
    → local < 2 ^ 32
    → IsHost local prefix v
    → (network_of local prefix + (v - network_of local prefix)) % 2 ^ 32 ≡ v
host_offset local prefix v is_24 l h = omega (arith, h.behind, h.in_front)
host_offset local prefix v is_25 l h = omega (arith, h.behind, h.in_front)
host_offset local prefix v is_26 l h = omega (arith, h.behind, h.in_front)
host_offset local prefix v is_27 l h = omega (arith, h.behind, h.in_front)
host_offset local prefix v is_28 l h = omega (arith, h.behind, h.in_front)
host_offset local prefix v is_29 l h = omega (arith, h.behind, h.in_front)
host_offset local prefix v is_30 l h = omega (arith, h.behind, h.in_front)

host_offset_lt :
    (local prefix v : ℕ)
    → IsSize prefix
    → local < 2 ^ 32
    → IsHost local prefix v
    → (v - network_of local prefix) < 1 + (address_count prefix - 2)
host_offset_lt local prefix v is_24 l h = omega (arith, h.behind, h.in_front)
host_offset_lt local prefix v is_25 l h = omega (arith, h.behind, h.in_front)
host_offset_lt local prefix v is_26 l h = omega (arith, h.behind, h.in_front)
host_offset_lt local prefix v is_27 l h = omega (arith, h.behind, h.in_front)
host_offset_lt local prefix v is_28 l h = omega (arith, h.behind, h.in_front)
host_offset_lt local prefix v is_29 l h = omega (arith, h.behind, h.in_front)
host_offset_lt local prefix v is_30 l h = omega (arith, h.behind, h.in_front)

pub add_subnet-Covers :
    (local prefix v : ℕ) (plan : SubnetPlan)
    → IsSize prefix
    → local < 2 ^ 32
    → IsHost local prefix v
    → IsCovered v (add_subnet local prefix plan).candidates (add_subnet local prefix plan).is_full
unfolding add_subnet
add_subnet-Covers local prefix v plan s l h =
    let network = network_of local prefix in
    let same = host_offset local prefix v s l h in
    subst (λ w. Covers w (add_offsets network local (address_count prefix - 2) 1 plan.candidates))
      same
      (add_offsets-Covers network local (address_count prefix - 2) 1 plan.candidates (v - network)
        (omega (arith, h.behind)) (host_offset_lt local prefix v s l h)
        (λ e. h.not_local (sym same ∙ e)))
