-- ===== src/Text/Trim.antt =====
-- White space is trimmed once: a trimmed text begins and ends with none.
pub mod Return
pub mod Kept
use mathlib.Core.List.{reverse-append, reverse-reverse}
use otherhost.Base.{
  ℕ, zero, suc, ◌≡◌, refl, sym, ap, ◌∙◌, ◌⊎◌, inl, inr, [], ◌∷◌, ◌++◌, reverse, arith, Bytes,
}
use otherhost.Text.{space_width, space_width_back, drop_spaces, trim_left, trim_right, trim_space}

pub ℕ-cases : (n : ℕ) → (n ≡ 0) ⊎ ((k : ℕ) × (n ≡ suc k))
ℕ-cases zero = inl refl
ℕ-cases (suc k) = inr (k, refl)

module _ (width : Bytes → ℕ) where
  -- What is dropped stands in front of what is left.
  drop_spaces-suffix : (k : ℕ) (s : Bytes) → (p : Bytes) × (s ≡ p ++ drop_spaces width k s)
  unfolding drop_spaces
  drop_spaces-suffix k [] = ([], refl)
  drop_spaces-suffix (suc k) (a ∷ r) = let (p, e) = drop_spaces-suffix k r in (a ∷ p, ap (◌∷◌ a) e)
  drop_spaces-suffix zero (a ∷ r) = elim (ℕ-cases (width (a ∷ r))) [
    | inl none_left ↦ ([], rw (none_left, drop_spaces))
    | inr (k, e) ↦
        let (p, q) = drop_spaces-suffix k r in (a ∷ p, rw (e, drop_spaces) (ap (◌∷◌ a) q))
  ]

  drop_spaces-width : (k : ℕ) (s : Bytes) → width [] ≡ 0 → width (drop_spaces width k s) ≡ 0
  unfolding drop_spaces
  drop_spaces-width k [] h = h
  drop_spaces-width (suc k) (a ∷ r) h = drop_spaces-width k r h
  drop_spaces-width zero (a ∷ r) h = elim (ℕ-cases (width (a ∷ r))) [
    | inl none_left ↦ rw (none_left, drop_spaces) none_left
    | inr (k, e) ↦ rw (e, drop_spaces) (drop_spaces-width k r h)
  ]

  pub drop_spaces-fixed : (s : Bytes) → width s ≡ 0 → drop_spaces width 0 s ≡ s
  unfolding drop_spaces
  drop_spaces-fixed [] h = refl
  drop_spaces-fixed (a ∷ r) h = rw (h, drop_spaces)

space_width-prefix : (s t : Bytes) → space_width (s ++ t) ≡ 0 → space_width s ≡ 0
unfolding space_width
space_width-prefix [] t h = refl
space_width-prefix (a ∷ []) [] h = h
space_width-prefix (a ∷ []) (b ∷ []) h = ground arith
space_width-prefix (a ∷ []) (b ∷ c ∷ t) h = ground arith
space_width-prefix (a ∷ b ∷ []) [] h = h
space_width-prefix (a ∷ b ∷ []) (c ∷ t) h = ground arith
space_width-prefix (a ∷ b ∷ c ∷ s) t h = h

pub space_width-trim_left : (s : Bytes) → space_width (trim_left s) ≡ 0
unfolding trim_left
space_width-trim_left s = drop_spaces-width space_width 0 s refl

-- The trimmed text is a prefix of the text trimmed in front.
trim_right-prefix : (s : Bytes) → (t : Bytes) × (s ≡ trim_right s ++ t)
unfolding trim_right
trim_right-prefix s =
    let (p, e) = drop_spaces-suffix space_width_back 0 (reverse s) in
    (reverse p, sym (reverse-reverse s) ∙ ap reverse e ∙ reverse-append p _)

pub trim_left-fixed : (s : Bytes) → space_width s ≡ 0 → trim_left s ≡ s
unfolding trim_left
trim_left-fixed s h = drop_spaces-fixed space_width s h

trim_right-trim_right : (s : Bytes) → trim_right (trim_right s) ≡ trim_right s
unfolding trim_right
trim_right-trim_right s =
    let t = drop_spaces space_width_back 0 (reverse s) in
    let kept = drop_spaces-width space_width_back 0 (reverse s) refl in
    rw (reverse-reverse t) (ap reverse (drop_spaces-fixed space_width_back t kept))

pub space_width-trim_space : (s : Bytes) → space_width (trim_space s) ≡ 0
unfolding trim_space
space_width-trim_space s =
    let (t, e) = trim_right-prefix (trim_left s) in
    space_width-prefix (trim_space s) t (rw (← e) (space_width-trim_left s))

pub trim_space-trim_space : (s : Bytes) → trim_space (trim_space s) ≡ trim_space s
unfolding trim_space
trim_space-trim_space s =
    ap trim_right (trim_left-fixed (trim_space s) (space_width-trim_space s))
    ∙ trim_right-trim_right (trim_left s)

-- What is left of a text stands in it.
pub trim_space-part : (s : Bytes) → (p : Bytes) × (q : Bytes) × (s ≡ p ++ (trim_space s ++ q))
unfolding trim_space trim_left
trim_space-part s =
    let (p, e) = drop_spaces-suffix space_width 0 s in
    let (q, f) = trim_right-prefix (trim_left s) in (p, q, e ∙ ap (λ t. p ++ t) f)
