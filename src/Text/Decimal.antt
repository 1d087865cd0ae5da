-- ===== src/Text/Decimal.antt =====
-- `strconv.Itoa` and `fmt.Sprintf("%d")`, with the number that a string of digits spells.
use mathlib.Core.List.{foldl}
use native.Mathlib.Nat.{pow-suc}
use otherhost.Base.{
  ℕ, zero, suc, ◌+◌, ◌-◌, ◌*◌, ◌/◌, ◌%◌, ◌≤◌, ◌<◌, ◌≡◌, ◌≢◌, ap, sym, [], ◌∷◌, arith, if◌then◌else◌,
  ltb, Bytes, All, length, ◌^◌, ℤ, pos, negsuc,
}

-- The digits of `n` in front of `out`; each round divides by ten, so `n + 1` rounds are enough.
digits : ℕ → ℕ → Bytes → Bytes
digits zero n out = out
digits (suc rounds) n out =
    let more = digits rounds (n / 10) ((n % 10 + b'0') ∷ out) in
    if ltb n 10 then (n + b'0') ∷ out else more

unfoldable pub itoa_ℕ : ℕ → Bytes
unfolding digits
itoa_ℕ n = digits (suc n) n []

unfoldable pub itoa : ℤ → Bytes
unfolding itoa_ℕ
itoa (pos n) = itoa_ℕ n
itoa (negsuc n) = b'-' ∷ itoa_ℕ (suc n)

abbrev pub IsDigit : ℕ → Type 0
IsDigit c = (b'0' ≤ c) × (c ≤ b'9')

abbrev pub value_from : ℕ → Bytes → ℕ
value_from = foldl (λ n c. n * 10 + (c - b'0'))

value_from-digits :
    (rounds n : ℕ) (out : Bytes)
    → n < rounds
    → value_from 0 (digits rounds n out) ≡ value_from n out
unfolding digits
value_from-digits zero n out h = absurd (omega arith)
value_from-digits (suc rounds) n out h =
    ground (arith, value_from-digits rounds (n / 10) ((n % 10 + b'0') ∷ out))

digits-IsDigit : (rounds n : ℕ) (out : Bytes) → All IsDigit out → All IsDigit (digits rounds n out)
unfolding digits
digits-IsDigit zero n out h = h
digits-IsDigit (suc rounds) n out h =
    ground (arith, digits-IsDigit rounds (n / 10) ((n % 10 + b'0') ∷ out))

digits-ne-nil : (rounds n : ℕ) (out : Bytes) → out ≢ [] → digits rounds n out ≢ []
unfolding digits
digits-ne-nil zero n out h = h
digits-ne-nil (suc rounds) n out h =
    ground (arith, digits-ne-nil rounds (n / 10) ((n % 10 + b'0') ∷ out))

pub value_from-itoa_ℕ : (n : ℕ) → value_from 0 (itoa_ℕ n) ≡ n
unfolding itoa_ℕ
value_from-itoa_ℕ n = value_from-digits (suc n) n [] (omega arith)

pub itoa_ℕ-IsDigit : (n : ℕ) → All IsDigit (itoa_ℕ n)
unfolding itoa_ℕ
itoa_ℕ-IsDigit n = digits-IsDigit (suc n) n [] tt

pub itoa_ℕ-injective : (a b : ℕ) → itoa_ℕ a ≡ itoa_ℕ b → a ≡ b
itoa_ℕ-injective a b h =
    omega (arith, value_from-itoa_ℕ a, value_from-itoa_ℕ b, ap (value_from 0) h)

not_sign : (s t : Bytes) → All IsDigit s → s ≢ b'-' ∷ t
not_sign [] t h = ground arith
not_sign (c ∷ s) t h = ground arith

tail_eq : {a b : ℕ} {s t : Bytes} → a ∷ s ≡ b ∷ t → s ≡ t
tail_eq h = cc

-- No two integers are printed alike.
pub itoa-injective : (a b : ℤ) → itoa a ≡ itoa b → a ≡ b
unfolding itoa
itoa-injective (pos a) (pos b) h = ap pos (itoa_ℕ-injective a b h)
itoa-injective (pos a) (negsuc b) h = absurd (not_sign _ _ (itoa_ℕ-IsDigit a) h)
itoa-injective (negsuc a) (pos b) h = absurd (not_sign _ _ (itoa_ℕ-IsDigit b) (sym h))
itoa-injective (negsuc a) (negsuc b) h =
    ap negsuc (omega (arith, itoa_ℕ-injective (suc a) (suc b) (tail_eq h)))

length-digits :
    (k rounds n : ℕ) (out : Bytes)
    → n < 10 ^ suc k
    → length (digits rounds n out) ≤ suc k + length out
unfolding digits
length-digits k zero n out h = omega arith
length-digits zero (suc rounds) n out h = ground arith
length-digits (suc k) (suc rounds) n out h = ground (
  arith,
  length-digits k rounds (n / 10) ((n % 10 + b'0') ∷ out) (omega (arith, pow-suc 10 (suc k))),
)

-- A number below 10^(k + 1) has at most k + 1 digits.
pub length-itoa_ℕ : (k n : ℕ) → n < 10 ^ suc k → length (itoa_ℕ n) ≤ suc k
unfolding itoa_ℕ
length-itoa_ℕ k n h = omega (arith, length-digits k (suc n) n [] h)
