-- ===== src/Text/Numbers.antt =====
-- `strconv.Atoi` on a 64-bit `int`.
use otherhost.Base.{
  ◌*◌, ◌-◌, ◌+◌, ℕ, zero, suc, ◌^◌, ◌<◌, ◌≡◌, refl, Bool, true, [], ◌∷◌, Option, none, some, arith,
  if◌then◌else◌, leb, ltb, within, ◌==◌, Bytes, All, all, ℤ, pos, negsuc,
}
use otherhost.Text.Decimal.{IsDigit, itoa, itoa_ℕ, itoa_ℕ-IsDigit, value_from, value_from-itoa_ℕ}

unfoldable pub is_digit : ℕ → Bool
is_digit c = within b'0' b'9' c

-- One digit or more.
unfoldable pub read_digits : Bytes → Option ℕ
unfolding is_digit
read_digits [] = none
read_digits (c ∷ s) = if all is_digit (c ∷ s) then some (value_from 0 (c ∷ s)) else none

abbrev pub minus : ℕ → ℤ
minus zero = pos 0
minus (suc n) = negsuc n

abbrev pub in_range_positive : Option ℕ → Option ℤ
in_range_positive none = none
in_range_positive (some n) = if ltb n (2 ^ 63) then some (pos n) else none

abbrev pub in_range_negative : Option ℕ → Option ℤ
in_range_negative none = none
in_range_negative (some n) = if leb n (2 ^ 63) then some (minus n) else none

unfoldable pub atoi : Bytes → Option ℤ
unfolding read_digits
atoi [] = none
atoi (c ∷ s) =
    if c == b'-'
    then in_range_negative (read_digits s)
    else if c == b'+'
    then in_range_positive (read_digits s)
    else in_range_positive (read_digits (c ∷ s))

all-is_digit : (s : Bytes) → All IsDigit s → all is_digit s ≡ true
unfolding is_digit
all-is_digit [] h = refl
all-is_digit (c ∷ s) h = ground (arith, all-is_digit s h.1)

atoi-digits :
    (s : Bytes) (n : ℕ)
    → All IsDigit s
    → 0 < n
    → value_from 0 s ≡ n
    → n < 2 ^ 63
    → atoi s ≡ some (pos n)
unfolding atoi read_digits
atoi-digits [] n h p v b = absurd (ground arith)
atoi-digits (c ∷ s) n h p v b = ground (arith, all-is_digit (c ∷ s) h)

-- A positive number is read back after it is printed.
pub atoi-itoa : (n : ℕ) → 0 < n → n < 2 ^ 63 → atoi (itoa (pos n)) ≡ some (pos n)
unfolding itoa
atoi-itoa n p b = atoi-digits (itoa_ℕ n) n (itoa_ℕ-IsDigit n) p (value_from-itoa_ℕ n) b

-- The values of `strconv.ParseUint(s, 10, 64)` and `strconv.Atoi` when their errors are ignored: 0 for
-- what is no number, the nearest number for what is out of range.
uint_from : ℕ → Bytes → ℕ
unfolding is_digit
uint_from n [] = n
uint_from n (c ∷ s) =
    let next = n * 10 + (c - b'0') in
    let rest = uint_from next s in
    if is_digit c then if ltb next (2 ^ 64) then rest else 2 ^ 64 - 1 else 0

unfoldable pub uint_or_nearest : Bytes → ℕ
unfolding uint_from
uint_or_nearest s = uint_from 0 s

abbrev at_most : ℕ → ℕ → ℕ
at_most limit n = if ltb limit n then limit else n

unfoldable pub int_or_nearest : Bytes → ℤ
unfolding uint_or_nearest
int_or_nearest [] = pos 0
int_or_nearest (c ∷ s) =
    if c == b'-'
    then minus (at_most (2 ^ 63) (uint_or_nearest s))
    else if c == b'+'
    then pos (at_most (2 ^ 63 - 1) (uint_or_nearest s))
    else pos (at_most (2 ^ 63 - 1) (uint_or_nearest (c ∷ s)))
