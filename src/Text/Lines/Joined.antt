-- ===== src/Text/Lines/Joined.antt =====
-- The lines of a text that a line is appended to.
use otherhost.Base.{
  ℕ, ◌≡◌, refl, sym, ap, ◌∙◌, ◌⊎◌, inl, inr, Bool, true, false, ◌&&◌, ◌||◌, [], ◌∷◌, ◌++◌, arith,
  any, Bytes, All, Bool-cases, ◌==◌, append_assoc, append-nil,
}
use otherhost.Text.Lines.{replace_crlf, split_from, split_lines}

abbrev pub IsInLine : ℕ → Type 0
IsInLine c = (c == 10 || c == 13) ≡ false

IsInLine-inside : (c : ℕ) → IsInLine c → (c == 10) ≡ false
IsInLine-inside c h = ground arith

module _ (p : Bytes → Bool) where
  split_from-append :
      (line s t : Bytes)
      → any p (split_from line (s ++ (10 ∷ t)))
        ≡ (any p (split_from line s) || any p (split_from [] t))
  unfolding split_from
  split_from-append line [] t = ground arith
  split_from-append line (c ∷ s) t = elim (Bool-cases (c == 10)) [
    | inl e ↦ rw (e, any) (ground (arith, split_from-append [] s t))
    | inr e ↦ rw (e, any) (split_from-append (line ++ (c ∷ [])) s t)
  ]

split_from-line :
    (line key : Bytes)
    → All IsInLine key
    → split_from line (key ++ (10 ∷ [])) ≡ (line ++ key) ∷ [] ∷ []
unfolding split_from
split_from-line line [] h = ap (λ l. l ∷ [] ∷ []) (sym (append-nil line))
split_from-line line (c ∷ key) h =
    let e = IsInLine-inside c h.0 in
    rw (e, split_from)
      (split_from-line (line ++ (c ∷ [])) key h.1
        ∙ ap (λ l. l ∷ [] ∷ []) (append_assoc line (c ∷ []) key))

replace_crlf-line :
    (key : Bytes) → All IsInLine key → replace_crlf (key ++ (10 ∷ [])) ≡ key ++ (10 ∷ [])
unfolding replace_crlf
replace_crlf-line [] h = refl
replace_crlf-line (c ∷ []) h = ground arith
replace_crlf-line (c ∷ d ∷ key) h = ground (arith, replace_crlf-line (d ∷ key))

-- A line end separates what stands before it from what follows.
replace_crlf-append :
    (s t : Bytes) → replace_crlf (s ++ (10 ∷ t)) ≡ replace_crlf (s ++ (10 ∷ [])) ++ replace_crlf t
unfolding replace_crlf
replace_crlf-append [] [] = refl
replace_crlf-append [] (d ∷ t) = refl
replace_crlf-append (c ∷ []) t = elim (Bool-cases (c == 13)) [
  | inl e ↦ rw e refl
  | inr e ↦ rw e (ap (◌∷◌ c) (replace_crlf-append [] t))
]
replace_crlf-append (c ∷ d ∷ s) t = elim (Bool-cases (c == 13 && d == 10)) [
  | inl e ↦ rw e (ap (◌∷◌ 10) (replace_crlf-append s t))
  | inr e ↦ rw e (ap (◌∷◌ c) (replace_crlf-append (d ∷ s) t))
]

-- The text ends with a line end.
abbrev pub EndsLine : Bytes → Type 0
EndsLine text = (front : Bytes) × (text ≡ front ++ (10 ∷ []))

EndsLine-cons : (c : ℕ) (text : Bytes) → EndsLine text → EndsLine (c ∷ text)
EndsLine-cons c text (front, e) = (c ∷ front, ap (◌∷◌ c) e)

replace_crlf-EndsLine : (s : Bytes) → EndsLine (replace_crlf (s ++ (10 ∷ [])))
unfolding replace_crlf
replace_crlf-EndsLine [] = ([], refl)
replace_crlf-EndsLine (c ∷ []) = elim (Bool-cases (c == 13)) [
  | inl e ↦ rw e ([], refl)
  | inr e ↦ rw e (c ∷ [], refl)
]
replace_crlf-EndsLine (c ∷ d ∷ s) = elim (Bool-cases (c == 13 && d == 10)) [
  | inl e ↦ rw e (EndsLine-cons 10 _ (replace_crlf-EndsLine s))
  | inr e ↦ rw e (EndsLine-cons c _ (replace_crlf-EndsLine (d ∷ s)))
]

-- After a key is appended to a text whose last line is finished, the key is one of its lines, and the
-- lines before are kept.
pub any-appended_line :
    (p : Bytes → Bool) (text key : Bytes)
    → (text ≡ []) ⊎ EndsLine text
    → All IsInLine key
    → p key ≡ true
    → any p (split_lines (replace_crlf (text ++ (key ++ (10 ∷ []))))) ≡ true
unfolding split_lines
any-appended_line p text key (inl e) h k =
    rw (e, replace_crlf-line key h, split_from-line [] key h, k) refl
any-appended_line p text key (inr (front, e)) h k =
    let (kept, r) = replace_crlf-EndsLine front in
    let tail = key ++ (10 ∷ []) in
    let joined =
      ap replace_crlf (ap (λ t. t ++ tail) e ∙ append_assoc front (10 ∷ []) tail)
      ∙ replace_crlf-append front tail
      ∙ ap (λ t. t ++ replace_crlf tail) r
      ∙ append_assoc kept (10 ∷ []) (replace_crlf tail)
      ∙ ap (λ t. kept ++ (10 ∷ t)) (replace_crlf-line key h) in
    ap (λ t. any p (split_from [] t)) joined
    ∙ split_from-append p [] kept tail
    ∙ ap (λ ls. any p (split_from [] kept) || any p ls) (split_from-line [] key h)
    ∙ ground (arith, k)
