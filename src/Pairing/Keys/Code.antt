-- ===== src/Pairing/Keys/Code.antt =====
-- The six digits that the two users compare.
use otherhost.Base.{
  ℕ, zero, suc, ◌-◌, ◌%◌, ◌≡◌, refl, ◌++◌, arith, Bytes, length, take, All, All-append,
  length-append,
}
use otherhost.Text.Decimal.{
  itoa_ℕ, IsDigit, value_from, value_from-itoa_ℕ, itoa_ℕ-IsDigit, length-itoa_ℕ,
}
use otherhost.Pairing.Crypto.{Crypto}
use otherhost.Pairing.Keys.{SessionKeys, get_u32, zeros, comparison_code}

length-zeros : (n : ℕ) → length (zeros n) ≡ n
unfolding zeros
length-zeros zero = refl
length-zeros (suc n) = omega (arith, length-zeros n)

zeros-IsDigit : (n : ℕ) → All IsDigit (zeros n)
unfolding zeros
zeros-IsDigit zero = tt
zeros-IsDigit (suc n) = (omega arith, zeros-IsDigit n)

value_from-zeros : (n : ℕ) (s : Bytes) → value_from 0 (zeros n ++ s) ≡ value_from 0 s
unfolding zeros
value_from-zeros zero s = refl
value_from-zeros (suc n) s = value_from-zeros n s

module _ (crypto : Crypto) where
  -- The comparison code is always six digits, and they spell the first four bytes of the MAC modulo
  -- one million: no leading zero is lost.
  pub comparison_code_digits :
      (keys : SessionKeys)
      → let code = comparison_code crypto keys in
        (length code ≡ 6)
        × All IsDigit code
        × (value_from 0 code ≡ get_u32 (take 4 (crypto.hmac keys.sas keys.transcript)) % 1_000_000)
  unfolding comparison_code
  comparison_code_digits keys =
      let v = get_u32 (take 4 (crypto.hmac keys.sas keys.transcript)) % 1_000_000 in
      let short = length-itoa_ℕ 5 v (omega arith) in
      let n = 6 - length (itoa_ℕ v) in
      (
        omega (arith, length-append (zeros n) (itoa_ℕ v), length-zeros n, short),
        All-append IsDigit (zeros n) (itoa_ℕ v) (zeros-IsDigit n) (itoa_ℕ-IsDigit v),
        rw (value_from-zeros n (itoa_ℕ v)) (value_from-itoa_ℕ v),
      )
