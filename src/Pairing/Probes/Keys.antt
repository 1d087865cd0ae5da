-- ===== src/Pairing/Probes/Keys.antt =====
-- The key of a device tells its address.
use otherhost.Base.{
  ℕ, suc, ◌≡◌, refl, sym, ap, ◌∙◌, true, false, ◌||◌, [], ◌∷◌, ◌++◌, arith, ◌==◌, Bytes, All, pos,
  negsuc, ℤ,
}
use otherhost.Pairing.Discovery.{Device}
use otherhost.Pairing.Local.{Ip, ip4, ip6, no_ip}
use otherhost.Pairing.Probes.{device_key, ip_text}
use otherhost.Text.Decimal.{IsDigit, itoa, itoa_ℕ, itoa_ℕ-IsDigit}
use otherhost.Text.{contains_byte}

contains_byte-found : (b t : Bytes) (c : ℕ) → contains_byte (b ++ (c ∷ t)) c ≡ true
unfolding contains_byte
contains_byte-found [] t c = ground arith
contains_byte-found (x ∷ b) t c = ground (arith, contains_byte-found b t c)

tail_eq : {x y : ℕ} {s t : Bytes} → x ∷ s ≡ y ∷ t → s ≡ t
tail_eq e = cc

head_eq : {x y : ℕ} {s t : Bytes} → x ∷ s ≡ y ∷ t → x ≡ y
head_eq e = cc

-- Two texts that are cut at the last such byte have the same parts.
cut_unique :
    (c : ℕ) (a b s t : Bytes)
    → contains_byte s c ≡ false
    → contains_byte t c ≡ false
    → a ++ (c ∷ s) ≡ b ++ (c ∷ t)
    → (a ≡ b) × (s ≡ t)
unfolding contains_byte
cut_unique c [] [] s t hs ht e = (refl, cc)
cut_unique c [] (y ∷ b) s t hs ht e =
    let found = ap (λ r. contains_byte r c) (tail_eq e) ∙ contains_byte-found b t c in
    absurd (ground (arith, found, hs))
cut_unique c (x ∷ a) [] s t hs ht e =
    let found = ap (λ r. contains_byte r c) (sym (tail_eq e)) ∙ contains_byte-found a s c in
    absurd (ground (arith, found, ht))
cut_unique c (x ∷ a) (y ∷ b) s t hs ht e =
    let (p, q) = cut_unique c a b s t hs ht (tail_eq e) in
    (ap (λ z. z ∷ a) (head_eq e) ∙ ap (◌∷◌ y) p, q)

contains_byte-append :
    (s t : Bytes) (c : ℕ) → contains_byte (s ++ t) c ≡ (contains_byte s c || contains_byte t c)
unfolding contains_byte
contains_byte-append [] t c = refl
contains_byte-append (x ∷ s) t c = ground (arith, contains_byte-append s t c)

digits-contains_byte :
    (s : Bytes) (c : ℕ)
    → All IsDigit s
    → (c == b'@' || c == b':') ≡ true
    → contains_byte s c ≡ false
unfolding contains_byte
digits-contains_byte [] c h e = refl
digits-contains_byte (x ∷ s) c h e = ground (arith, digits-contains_byte s c h.1 e)

-- Neither the address nor the port holds a `@` or a `:`.
dotted-contains_byte :
    (s t : Bytes) (c : ℕ)
    → All IsDigit s
    → (c == b'@' || c == b':') ≡ true
    → contains_byte t c ≡ false
    → contains_byte (s ++ (b'.' ∷ t)) c ≡ false
unfolding contains_byte
dotted-contains_byte s t c h e f =
    contains_byte-append s (b'.' ∷ t) c ∙ ground (arith, digits-contains_byte s c h e)

ip_text-contains_byte :
    (ip : Ip) (c : ℕ) → (c == b'@' || c == b':') ≡ true → contains_byte (ip_text ip) c ≡ false
unfolding ip_text contains_byte
ip_text-contains_byte (ip4 i j k l) c e =
    let d = λ (n : ℕ). itoa_ℕ-IsDigit n in
    dotted-contains_byte (itoa_ℕ i) _ c (d i) e (
      dotted-contains_byte (itoa_ℕ j) _ c (d j) e
        (dotted-contains_byte (itoa_ℕ k) _ c (d k) e (digits-contains_byte (itoa_ℕ l) c (d l) e)))
ip_text-contains_byte (ip6 a b c' d e' f g h) c e = refl
ip_text-contains_byte no_ip c e = refl

itoa-contains_byte :
    (n : ℤ) (c : ℕ) → (c == b'@' || c == b':') ≡ true → contains_byte (itoa n) c ≡ false
unfolding itoa contains_byte
itoa-contains_byte (pos n) c e = digits-contains_byte (itoa_ℕ n) c (itoa_ℕ-IsDigit n) e
itoa-contains_byte (negsuc n) c e =
    ground (arith, digits-contains_byte (itoa_ℕ (suc n)) c (itoa_ℕ-IsDigit (suc n)) e)

place_text : Device → Bytes
place_text d = ip_text d.address ++ b':' ∷ itoa d.port

place_text-contains_byte : (d : Device) → contains_byte (place_text d) b'@' ≡ false
unfolding place_text contains_byte
place_text-contains_byte d =
    contains_byte-append (ip_text d.address) (b':' ∷ itoa d.port) b'@'
    ∙ ground (arith, ip_text-contains_byte d.address b'@' refl, itoa-contains_byte d.port b'@' refl)

-- Devices with one key have one address.
pub device_key-address :
    (a b : Device) → device_key a ≡ device_key b → ip_text a.address ≡ ip_text b.address
unfolding device_key place_text
device_key-address a b e =
    let (i, p) =
      cut_unique b'@' a.instance_id b.instance_id (place_text a) (place_text b)
        (place_text-contains_byte a) (place_text-contains_byte b) e in
    (cut_unique b':' (ip_text a.address) (ip_text b.address) (itoa a.port) (itoa b.port)
      (itoa-contains_byte a.port b':' refl) (itoa-contains_byte b.port b':' refl) p).0
