-- ===== src/Pairing/Probes/Order.antt =====
-- The order of the devices in a list.
use otherhost.Base.{
  suc, ◌≡◌, ◌≢◌, sym, ◌∙◌, inl, inr, true, false, List, [], ◌∷◌, arith, Bytes, bytes_eq, Bool-cases,
  if◌then◌else◌,
}
use otherhost.Pairing.Discovery.{Device}
use otherhost.Text.Order.{bytes_lt, bytes_lt-asym, bytes_lt-total, bytes_lt_trans}
use otherhost.Pairing.Probes.{insert_device, ip_text, is_before}

-- A name and an address as one text, which compares as the two do.
joined : Bytes → Bytes → Bytes
joined [] t = 0 ∷ t
joined (x ∷ n) t = suc x ∷ joined n t

joined-lt :
    (n t m u : Bytes)
    → (if bytes_eq n m then bytes_lt t u else bytes_lt n m) ≡ bytes_lt (joined n t) (joined m u)
unfolding bytes_lt joined bytes_eq
joined-lt [] t [] u = ground arith
joined-lt [] t (y ∷ m) u = ground arith
joined-lt (x ∷ n) t [] u = ground arith
joined-lt (x ∷ n) t (y ∷ m) u = ground (arith, joined-lt n t m u)

joined-address : (n t m u : Bytes) → joined n t ≡ joined m u → t ≡ u
unfolding joined
joined-address [] t [] u e = cc
joined-address [] t (y ∷ m) u e = ground arith
joined-address (x ∷ n) t [] u e = ground arith
joined-address (x ∷ n) t (y ∷ m) u e = joined-address n t m u cc

-- Devices are compared by this text.
rank : Device → Bytes
rank d = joined d.name (ip_text d.address)

is_before-rank : (a b : Device) → is_before a b ≡ bytes_lt (rank a) (rank b)
unfolding is_before rank
is_before-rank a b = joined-lt a.name (ip_text a.address) b.name (ip_text b.address)

pub is_before_trans :
    (a b c : Device) → is_before a b ≡ true → is_before b c ≡ true → is_before a c ≡ true
is_before_trans a b c p q =
    is_before-rank a c
    ∙ bytes_lt_trans (rank a) (rank b) (rank c) (sym (is_before-rank a b) ∙ p)
        (sym (is_before-rank b c) ∙ q)

pub is_before-asym : (a b : Device) → is_before a b ≡ true → is_before b a ≡ false
is_before-asym a b p =
    is_before-rank b a ∙ bytes_lt-asym (rank a) (rank b) (sym (is_before-rank a b) ∙ p)

-- Of two devices with different addresses one comes first.
pub is_before-total :
    (a b : Device)
    → ip_text a.address ≢ ip_text b.address
    → is_before a b ≡ false
    → is_before b a ≡ true
unfolding rank
is_before-total a b d p = elim (Bool-cases (is_before b a)) [
  | inl q ↦ q
  | inr q ↦ absurd (
      d (
        joined-address a.name _ b.name _ (
          bytes_lt-total (rank a) (rank b) (sym (is_before-rank a b) ∙ p)
            (sym (is_before-rank b a) ∙ q))))
]

-- The order in which two devices with different addresses are inserted makes no difference.
pub insert_device_comm :
    (a b : Device) (devices : List Device)
    → ip_text a.address ≢ ip_text b.address
    → insert_device a (insert_device b devices) ≡ insert_device b (insert_device a devices)
unfolding insert_device
insert_device_comm a b [] d = ground (arith, is_before-asym a b, is_before-total a b d)
insert_device_comm a b (c ∷ devices) d = ground (
  arith,
  is_before-asym a b,
  is_before-total a b d,
  is_before_trans c a b,
  is_before_trans c b a,
  insert_device_comm a b devices d,
)
