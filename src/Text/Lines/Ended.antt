-- ===== src/Text/Lines/Ended.antt =====
-- Lines that are joined are split again.
use otherhost.Base.{
  ℕ, ◌≡◌, sym, ap, ◌∙◌, inl, inr, false, [], ◌∷◌, ◌++◌, Bytes, All, ◌==◌, Bool-cases, append_assoc,
  append-nil, All-append,
}
use otherhost.Text.Lines.{split_from, split_lines}

-- A byte that ends no line.
abbrev pub IsInside : ℕ → Type 0
IsInside c = (c == 10) ≡ false

split_from-inside :
    (acc line : Bytes) → All IsInside line → split_from acc line ≡ (acc ++ line) ∷ []
unfolding split_from
split_from-inside acc [] h = ap (λ l. l ∷ []) (sym (append-nil acc))
split_from-inside acc (c ∷ line) h =
    rw (h.0, split_from)
      (split_from-inside (acc ++ (c ∷ [])) line h.1
        ∙ ap (λ l. l ∷ []) (append_assoc acc (c ∷ []) line))

split_from-ended :
    (acc line rest : Bytes)
    → All IsInside line
    → split_from acc (line ++ (10 ∷ rest)) ≡ (acc ++ line) ∷ split_from [] rest
unfolding split_from
split_from-ended acc [] rest h = ap (λ l. l ∷ split_from [] rest) (sym (append-nil acc))
split_from-ended acc (c ∷ line) rest h =
    rw (h.0, split_from)
      (split_from-ended (acc ++ (c ∷ [])) line rest h.1
        ∙ ap (λ l. l ∷ split_from [] rest) (append_assoc acc (c ∷ []) line))

pub split_lines-inside : (line : Bytes) → All IsInside line → split_lines line ≡ line ∷ []
unfolding split_lines
split_lines-inside line h = split_from-inside [] line h

pub split_lines-ended :
    (line rest : Bytes)
    → All IsInside line
    → split_lines (line ++ (10 ∷ rest)) ≡ line ∷ split_lines rest
unfolding split_lines
split_lines-ended line rest h = split_from-ended [] line rest h

-- No line that a text is split in holds a line end.
split_from-IsInside : (acc s : Bytes) → All IsInside acc → All (All IsInside) (split_from acc s)
unfolding split_from
split_from-IsInside acc [] h = (h, tt)
split_from-IsInside acc (c ∷ s) h = elim (Bool-cases (c == 10)) [
  | inl e ↦ rw (e, All) (h, split_from-IsInside [] s tt)
  | inr e ↦
      rw (e, All)
        (split_from-IsInside (acc ++ (c ∷ [])) s (All-append IsInside acc (c ∷ []) h (e, tt)))
]

pub split_lines-IsInside : (s : Bytes) → All (All IsInside) (split_lines s)
unfolding split_lines
split_lines-IsInside s = split_from-IsInside [] s tt
