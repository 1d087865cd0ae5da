-- ===== src/Text/Trim/Kept.antt =====
-- A text that begins with a visible character is trimmed only in what stands behind a `=`.
use otherhost.Base.{
  ℕ, ◌≡◌, refl, sym, ap, ◌∙◌, [], ◌∷◌, ◌++◌, reverse, reverse-append, reverse-reverse, arith, Bytes,
  append_assoc, All, All-append, subst,
}
use otherhost.Text.{
  IsVisible, drop_spaces, is_ascii_space, is_space_2, is_space_3, space_width_back, trim_left,
  trim_right, trim_space,
}
use otherhost.Text.Trim.{drop_spaces-fixed, drop_spaces-width, trim_left-fixed}
use otherhost.Text.Visible.{space_width-IsVisible, space_width_back-IsVisible}

pub trim_space_blank : trim_space [] ≡ []
unfolding trim_space trim_left trim_right drop_spaces
trim_space_blank = refl

trim_space-fixed :
    (c : ℕ) (s : Bytes)
    → IsVisible c
    → space_width_back (reverse (c ∷ s)) ≡ 0
    → trim_space (c ∷ s) ≡ c ∷ s
unfolding trim_space trim_right
trim_space-fixed c s v b =
    ap trim_right (trim_left-fixed (c ∷ s) (space_width-IsVisible c s v))
    ∙ ap reverse (drop_spaces-fixed space_width_back (reverse (c ∷ s)) b)
    ∙ reverse-reverse (c ∷ s)

space_width_back-trim_space : (s : Bytes) → trim_space s ≡ s → space_width_back (reverse s) ≡ 0
unfolding trim_space trim_right
space_width_back-trim_space s h =
    let t = drop_spaces space_width_back 0 (reverse (trim_left s)) in
    ap (λ r. space_width_back (reverse r)) (sym h)
    ∙ ap space_width_back (reverse-reverse t)
    ∙ drop_spaces-width space_width_back 0 (reverse (trim_left s)) refl

space_width_back-equals :
    (t u : Bytes) → space_width_back t ≡ 0 → space_width_back (t ++ (b'=' ∷ u)) ≡ 0
unfolding space_width_back is_ascii_space is_space_2 is_space_3
space_width_back-equals [] [] h = refl
space_width_back-equals [] (a ∷ []) h = ground arith
space_width_back-equals [] (a ∷ b ∷ u) h = ground arith
space_width_back-equals (a ∷ []) [] h = ground arith
space_width_back-equals (a ∷ []) (b ∷ u) h = ground arith
space_width_back-equals (a ∷ b ∷ []) u h = ground arith
space_width_back-equals (a ∷ b ∷ c ∷ t) u h = h

pub trim_space-setting :
    (c : ℕ) (key value : Bytes)
    → IsVisible c
    → trim_space value ≡ value
    → trim_space (c ∷ (key ++ (b'=' ∷ value))) ≡ c ∷ (key ++ (b'=' ∷ value))
trim_space-setting c key value v h = trim_space-fixed c (key ++ (b'=' ∷ value)) v (
    ap space_width_back (
      reverse-append (c ∷ key) (b'=' ∷ value)
      ∙ ap (λ r. r ++ reverse (c ∷ key)) (reverse-append (b'=' ∷ []) value)
      ∙ append_assoc (reverse value) (b'=' ∷ []) (reverse (c ∷ key)))
    ∙ space_width_back-equals (reverse value) (reverse (c ∷ key))
        (space_width_back-trim_space value h))

All-reverse : (s : Bytes) → All IsVisible s → All IsVisible (reverse s)
All-reverse [] h = h
All-reverse (c ∷ s) h =
    subst (All IsVisible) (sym (reverse-append (c ∷ []) s))
      (All-append IsVisible (reverse s) (c ∷ []) (All-reverse s h.1) (h.0, tt))

space_width_back-visible : (s : Bytes) → All IsVisible s → space_width_back s ≡ 0
unfolding space_width_back
space_width_back-visible [] h = refl
space_width_back-visible (c ∷ s) h = space_width_back-IsVisible c s h.0

pub trim_space-All : (s : Bytes) → All IsVisible s → trim_space s ≡ s
trim_space-All [] h = trim_space_blank
trim_space-All (c ∷ s) h =
    trim_space-fixed c s h.0 (space_width_back-visible (reverse (c ∷ s)) (All-reverse (c ∷ s) h))
