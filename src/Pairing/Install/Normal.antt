-- ===== src/Pairing/Install/Normal.antt =====
-- A key in normal form is left as it is.
use otherhost.Base.{
  ℕ, ◌||◌, ◌==◌, ◌≡◌, ◌≢◌, refl, sym, ap, ◌∙◌, inl, inr, true, false, [], ◌∷◌, ◌++◌, some, arith,
  Bytes, All, append-nil, append_assoc, Option-cases, codes, bytes_eq_refl, drop, ok,
}
use otherhost.Pairing.Install.KeyLine.{
  key_line-IsInLine, line_of, normalize_ed25519_public_key-IsKeyLine,
  normalize_ed25519_public_key-parts,
}
use otherhost.Pairing.Ssh.{ed25519, first_two, normalize_ed25519_public_key}
use otherhost.Text.Lines.Joined.{IsInLine}
use otherhost.Text.Lines.{fields, fields_from}
use otherhost.Text.{IsVisible, contains_any, contains_byte, space_width, trim_suffix_byte}

space_width_visible : (c : ℕ) (s : Bytes) → IsVisible c → space_width (c ∷ s) ≡ 0
unfolding space_width
space_width_visible c s h = ground arith

-- The last word of a text.
fields_from-visible :
    (w : ℕ) (word s : Bytes) → All IsVisible s → fields_from (w ∷ word) 0 s ≡ ((w ∷ word) ++ s) ∷ []
unfolding fields_from
fields_from-visible w word [] h = ap (λ t. (w ∷ t) ∷ []) (sym (append-nil word))
fields_from-visible w word (c ∷ s) h =
    rw (space_width_visible c s h.0, fields_from)
      (fields_from-visible w (word ++ (c ∷ [])) s h.1
        ∙ ap (λ t. (w ∷ t) ∷ []) (append_assoc word (c ∷ []) s))

trim_suffix_byte-other :
    (x : ℕ) (s : Bytes) → All IsInLine s → (x == 10 || x == 13) ≡ true → trim_suffix_byte x s ≡ s
unfolding trim_suffix_byte
trim_suffix_byte-other x [] h e = refl
trim_suffix_byte-other x (d ∷ []) h e = ground (arith, h.0)
trim_suffix_byte-other x (d ∷ b ∷ s) h e = ap (◌∷◌ d) (trim_suffix_byte-other x (b ∷ s) h.1 e)

contains_any-inside : (s : Bytes) → All IsInLine s → contains_any s (codes "\r\n") ≡ false
unfolding contains_any contains_byte
contains_any-inside [] h = refl
contains_any-inside (c ∷ s) h = ground (arith, contains_any-inside s h.1)

space_width_blank : (s : Bytes) → space_width (32 ∷ s) ≡ 1
unfolding space_width
space_width_blank [] = refl
space_width_blank (d ∷ []) = refl
space_width_blank (d ∷ e ∷ s) = refl

-- A word that a space ends.
fields_from-ended :
    (w : ℕ) (word s rest : Bytes)
    → All IsVisible s
    → fields_from (w ∷ word) 0 (s ++ (32 ∷ rest)) ≡ ((w ∷ word) ++ s) ∷ fields_from [] 0 rest
unfolding fields_from
fields_from-ended w word [] rest h =
    rw (space_width_blank rest, fields_from)
      (ap (λ t. (w ∷ t) ∷ fields_from [] 0 rest) (sym (append-nil word)))
fields_from-ended w word (c ∷ s) rest h =
    rw (space_width_visible c (s ++ (32 ∷ rest)) h.0, fields_from)
      (fields_from-ended w (word ++ (c ∷ [])) s rest h.1
        ∙ ap (λ t. (w ∷ t) ∷ fields_from [] 0 rest) (append_assoc word (c ∷ []) s))

fields_from-begun :
    (c : ℕ) (s : Bytes) → IsVisible c → fields_from [] 0 (c ∷ s) ≡ fields_from (c ∷ []) 0 s
unfolding fields_from
fields_from-begun c s h = rw (space_width_visible c s h, fields_from) refl

IsVisible-name : All IsVisible (drop 1 ed25519)
IsVisible-name = (refl, (refl, (refl, (refl, (refl, (refl, (refl, (refl, (refl, (refl, tt))))))))))

fields-key_line :
    (payload : Bytes)
    → All IsVisible payload
    → payload ≢ []
    → fields (ed25519 ++ (32 ∷ payload)) ≡ ed25519 ∷ payload ∷ []
unfolding fields
fields-key_line [] h n = absurd (n refl)
fields-key_line (c ∷ s) h n =
    fields_from-begun 115 (drop 1 ed25519 ++ (32 ∷ c ∷ s)) refl
    ∙ fields_from-ended 115 [] (drop 1 ed25519) (c ∷ s) IsVisible-name
    ∙ ap (◌∷◌ ed25519) (fields_from-begun c s h.0 ∙ fields_from-visible c [] s h.1)

line_of-inside : (key : Bytes) → All IsInLine key → line_of key ≡ key
line_of-inside key h =
    ap (trim_suffix_byte b'\r') (trim_suffix_byte-other b'\n' key h refl)
    ∙ trim_suffix_byte-other b'\r' key h refl

-- A line with the same word for a key is normalized in the same way.
normalize_ed25519_public_key_same :
    (a b key kind payload : Bytes)
    → first_two (fields (line_of a)) ≡ some (kind, payload)
    → first_two (fields (line_of b)) ≡ some (ed25519, payload)
    → contains_any (line_of b) (codes "\r\n") ≡ false
    → normalize_ed25519_public_key a ≡ ok key
    → normalize_ed25519_public_key b ≡ ok key
unfolding normalize_ed25519_public_key
normalize_ed25519_public_key_same a b key kind payload f g c e =
    ground (arith, bytes_eq_refl ed25519)

-- A key that has been normalized is normalized to itself.
pub normalize_ed25519_public_key_again :
    (public_key key : Bytes)
    → normalize_ed25519_public_key public_key ≡ ok key
    → normalize_ed25519_public_key key ≡ ok key
unfolding normalize_ed25519_public_key first_two
normalize_ed25519_public_key_again public_key key e =
    elim (Option-cases (first_two (fields (line_of public_key)))) [
      | inl n ↦ absurd (ground arith)
      | inr ((kind, payload), f) ↦
          let (word, k, v, n) = normalize_ed25519_public_key-IsKeyLine public_key key e in
          let (shown, rest) = normalize_ed25519_public_key-parts public_key key kind payload f e in
          let same = ap (drop 12) (sym shown ∙ k) in
          let inside = key_line-IsInLine key (word, k, v, n) in
          let line = line_of-inside key inside in
          normalize_ed25519_public_key_same public_key key key kind payload f
            (ap (λ l. first_two (fields l)) (line ∙ k)
              ∙ ap first_two (fields-key_line word v n)
              ∙ ap (λ w. some (ed25519, w)) (sym same))
            (ap (λ l. contains_any l (codes "\r\n")) line ∙ contains_any-inside key inside) e
    ]
