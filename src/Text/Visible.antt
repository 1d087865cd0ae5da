-- ===== src/Text/Visible.antt =====
-- Words of visible ASCII characters: what Base64 decodes, and texts that trimming leaves alone.
use otherhost.Base.{
  ℕ, zero, suc, ◌≡◌, refl, ap, ◌∙◌, inl, inr, false, [], ◌∷◌, ◌++◌, arith, Bytes, All, All-append,
  reverse, reverse-append, reverse-reverse,
}
use otherhost.Text.{
  IsVisible, is_space_2, is_space_3, is_ascii_space, space_width, space_width_back, trim_space,
  trim_right,
}
use otherhost.Text.Trim.{ℕ-cases, drop_spaces-fixed, trim_left-fixed}
use otherhost.Text.Base64.{strip_newlines}
use otherhost.Text.Lines.{fields, fields_from}

abbrev pub IsNoSpace : ℕ → Type 0
IsNoSpace c = is_ascii_space c ≡ false

space_width-IsNoSpace : (c : ℕ) (s : Bytes) → space_width (c ∷ s) ≡ 0 → IsNoSpace c
unfolding space_width
space_width-IsNoSpace c [] h = ground arith
space_width-IsNoSpace c (d ∷ []) h = ground arith
space_width-IsNoSpace c (d ∷ e ∷ s) h = ground arith

fields_from-IsNoSpace :
    (word : Bytes) (k : ℕ) (s : Bytes)
    → All IsNoSpace word
    → All (All IsNoSpace) (fields_from word k s)
unfolding fields_from
fields_from-IsNoSpace [] k [] h = tt
fields_from-IsNoSpace (w ∷ word) k [] h = (h, tt)
fields_from-IsNoSpace [] (suc k) (c ∷ s) h = fields_from-IsNoSpace [] k s h
fields_from-IsNoSpace (w ∷ word) (suc k) (c ∷ s) h = fields_from-IsNoSpace (w ∷ word) k s h
fields_from-IsNoSpace [] zero (c ∷ s) h = elim (ℕ-cases (space_width (c ∷ s))) [
  | inl e ↦ rw (e, All) (fields_from-IsNoSpace (c ∷ []) 0 s (space_width-IsNoSpace c s e, tt))
  | inr (k, e) ↦ rw (e, All) (fields_from-IsNoSpace [] k s tt)
]
fields_from-IsNoSpace (w ∷ word) zero (c ∷ s) h = elim (ℕ-cases (space_width (c ∷ s))) [
  | inl e ↦
      rw (e, All)
        (fields_from-IsNoSpace ((w ∷ word) ++ (c ∷ [])) 0 s
          (All-append IsNoSpace (w ∷ word) (c ∷ []) h (space_width-IsNoSpace c s e, tt)))
  | inr (k, e) ↦ rw (e, All) (h, fields_from-IsNoSpace [] k s tt)
]

pub fields-IsNoSpace : (s : Bytes) → All (All IsNoSpace) (fields s)
unfolding fields
fields-IsNoSpace s = fields_from-IsNoSpace [] 0 s tt

pub strip_newlines-IsNoSpace : (s : Bytes) → All IsNoSpace s → strip_newlines s ≡ s
unfolding strip_newlines is_ascii_space
strip_newlines-IsNoSpace [] h = refl
strip_newlines-IsNoSpace (c ∷ s) h = ground (arith, strip_newlines-IsNoSpace s h.1)

-- A text that begins and ends with a visible character is not trimmed.
pub space_width-IsVisible : (c : ℕ) (s : Bytes) → IsVisible c → space_width (c ∷ s) ≡ 0
unfolding space_width is_ascii_space is_space_2 is_space_3
space_width-IsVisible c [] h = ground arith
space_width-IsVisible c (d ∷ []) h = ground arith
space_width-IsVisible c (d ∷ e ∷ s) h = ground arith

pub space_width_back-IsVisible : (c : ℕ) (s : Bytes) → IsVisible c → space_width_back (c ∷ s) ≡ 0
unfolding space_width_back is_ascii_space is_space_2 is_space_3
space_width_back-IsVisible c [] h = ground arith
space_width_back-IsVisible c (d ∷ []) h = ground arith
space_width_back-IsVisible c (d ∷ e ∷ s) h = ground arith

pub trim_space-visible :
    (a : ℕ) (middle : Bytes) (z : ℕ)
    → IsVisible a
    → IsVisible z
    → trim_space (a ∷ (middle ++ (z ∷ []))) ≡ a ∷ (middle ++ (z ∷ []))
unfolding trim_space trim_right
trim_space-visible a middle z va vz =
    let s = a ∷ (middle ++ (z ∷ [])) in
    let r = reverse-append (a ∷ middle) (z ∷ []) in
    ap trim_right (trim_left-fixed s (space_width-IsVisible a (middle ++ (z ∷ [])) va))
    ∙ ap reverse (
        drop_spaces-fixed space_width_back (reverse s)
          (ap space_width_back r ∙ space_width_back-IsVisible z (reverse (a ∷ middle)) vz))
    ∙ reverse-reverse s
