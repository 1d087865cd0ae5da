-- ===== src/Text/Trim/Return.antt =====
-- A carriage return at the end of a line is trimmed with the white space.
use otherhost.Base.{
  ℕ, zero, suc, ◌≡◌, refl, sym, ap, ◌∙◌, ◌⊎◌, inl, inr, [], ◌∷◌, ◌++◌, reverse, reverse-append,
  arith, ◌==◌, Bytes, Bool-cases,
}
use otherhost.Text.{
  drop_spaces, is_ascii_space, is_space_2, is_space_3, space_width, space_width_back, trim_left,
  trim_right, trim_space, trim_suffix_byte,
}
use otherhost.Text.Trim.{ℕ-cases}

abbrev unless_empty : Bytes → Bytes
unless_empty [] = []
unless_empty (c ∷ s) = c ∷ (s ++ (13 ∷ []))

space_width-return : (c : ℕ) (s : Bytes) → space_width (c ∷ (s ++ (13 ∷ []))) ≡ space_width (c ∷ s)
unfolding space_width is_ascii_space is_space_2 is_space_3
space_width-return c [] = ground arith
space_width-return c (d ∷ []) = ground arith
space_width-return c (d ∷ e ∷ s) = refl

drop_spaces-return :
    (k : ℕ) (s : Bytes)
    → drop_spaces space_width k (s ++ (13 ∷ [])) ≡ unless_empty (drop_spaces space_width k s)
unfolding drop_spaces space_width is_ascii_space
drop_spaces-return zero [] = refl
drop_spaces-return (suc k) [] = refl
drop_spaces-return (suc k) (c ∷ s) = drop_spaces-return k s
drop_spaces-return zero (c ∷ s) = elim (ℕ-cases (space_width (c ∷ s))) [
  | inl e ↦ rw (space_width-return c s, e, drop_spaces) refl
  | inr (k, e) ↦ rw (space_width-return c s, e, drop_spaces) (drop_spaces-return k s)
]

drop_back-return :
    (t : Bytes) → drop_spaces space_width_back 0 (13 ∷ t) ≡ drop_spaces space_width_back 0 t
unfolding drop_spaces space_width_back is_ascii_space
drop_back-return [] = refl
drop_back-return (a ∷ []) = refl
drop_back-return (a ∷ b ∷ t) = refl

trim_right-return : (s : Bytes) → trim_right (unless_empty s) ≡ trim_right s
unfolding trim_right
trim_right-return [] = refl
trim_right-return (c ∷ s) =
    ap (λ t. reverse (drop_spaces space_width_back 0 t)) (reverse-append (c ∷ s) (13 ∷ []))
    ∙ ap reverse (drop_back-return (reverse (c ∷ s)))

pub trim_space-return : (s : Bytes) → trim_space (s ++ (13 ∷ [])) ≡ trim_space s
unfolding trim_space trim_left
trim_space-return s =
    ap trim_right (drop_spaces-return 0 s) ∙ trim_right-return (drop_spaces space_width 0 s)

trim_suffix_byte-cases :
    (x : ℕ) (s : Bytes) → (trim_suffix_byte x s ≡ s) ⊎ (s ≡ trim_suffix_byte x s ++ (x ∷ []))
unfolding trim_suffix_byte
trim_suffix_byte-cases x [] = inl refl
trim_suffix_byte-cases x (c ∷ []) = elim (Bool-cases (c == x)) [
  | inl e ↦ ground arith
  | inr e ↦ ground arith
]
trim_suffix_byte-cases x (c ∷ d ∷ s) = elim (trim_suffix_byte-cases x (d ∷ s)) [
  | inl e ↦ inl (ap (◌∷◌ c) e)
  | inr e ↦ inr (ap (◌∷◌ c) e)
]

pub trim_space-trim_suffix_byte : (s : Bytes) → trim_space (trim_suffix_byte 13 s) ≡ trim_space s
trim_space-trim_suffix_byte s = elim (trim_suffix_byte-cases 13 s) [
  | inl e ↦ ap trim_space e
  | inr e ↦ sym (trim_space-return (trim_suffix_byte 13 s)) ∙ ap trim_space (sym e)
]
