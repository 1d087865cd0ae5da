-- ===== src/Pairing/Install/KeyLine.antt =====
-- The form of a normalised key: one line, which trimming leaves alone.
use otherhost.Base.{
  ℕ, ◌≡◌, refl, ◌≢◌, ap, subst, ◌∙◌, inl, inr, List, [], ◌∷◌, ◌++◌, none, some, arith, Bytes, All,
  drop, ok, Option-cases,
}
use otherhost.Pairing.Ssh.{ed25519, first_two, normalize_ed25519_public_key, read_ssh_field}
use otherhost.Text.Base64.Letters.{std_decode-IsVisible}
use otherhost.Text.Base64.{std_decode}
use otherhost.Text.Lines.Joined.{IsInLine}
use otherhost.Text.Lines.{fields}
use otherhost.Text.Visible.{
  IsNoSpace, fields-IsNoSpace, strip_newlines-IsNoSpace, trim_space-visible,
}
use otherhost.Text.{IsVisible, trim_suffix_byte, trim_space}

second_word :
    (a b kind payload : Bytes) → first_two (a ∷ b ∷ []) ≡ some (kind, payload) → b ≡ payload
unfolding first_two
second_word a b kind payload e = ground arith

first_two-IsNoSpace :
    (words : List Bytes) (kind payload : Bytes)
    → All (All IsNoSpace) words
    → first_two words ≡ some (kind, payload)
    → All IsNoSpace payload
unfolding first_two
first_two-IsNoSpace [] kind payload h e = ground arith
first_two-IsNoSpace (a ∷ []) kind payload h e = ground arith
first_two-IsNoSpace (a ∷ b ∷ r) kind payload h e =
    subst (All IsNoSpace) (second_word a b kind payload e) h.1.0

read_ssh_field-empty : (blob : Bytes) → blob ≡ [] → read_ssh_field blob ≡ none
unfolding read_ssh_field
read_ssh_field-empty [] e = refl
read_ssh_field-empty (c ∷ blob) e = ground arith

abbrev pub line_of : Bytes → Bytes
line_of public_key = trim_suffix_byte b'\r' (trim_suffix_byte b'\n' public_key)

-- What a key that is normalised has passed.
pub normalize_ed25519_public_key-parts :
    (public_key key kind payload : Bytes)
    → first_two (fields (line_of public_key)) ≡ some (kind, payload)
    → normalize_ed25519_public_key public_key ≡ ok key
    → (key ≡ ed25519 ++ (32 ∷ payload))
      × ((blob : Bytes) × (std_decode payload ≡ some blob) × (read_ssh_field blob ≢ none))
unfolding normalize_ed25519_public_key
normalize_ed25519_public_key-parts public_key key kind payload f e =
    elim (Option-cases (std_decode payload)) [
      | inl n ↦ ground arith
      | inr (blob, d) ↦ (ground arith, (blob, d, λ r. ground arith))
    ]

std_decode-empty :
    (payload blob : Bytes) → payload ≡ [] → std_decode payload ≡ some blob → blob ≡ []
unfolding std_decode
std_decode-empty [] blob n e = ground arith
std_decode-empty (c ∷ payload) blob n e = ground arith

abbrev pub IsKeyLine : Bytes → Type 0
IsKeyLine key =
    (payload : Bytes) × (key ≡ ed25519 ++ (32 ∷ payload)) × All IsVisible payload × (payload ≢ [])

-- A key in normal form is one line: the algorithm's name, a space, and a word of visible ASCII
-- characters that is not empty.
pub normalize_ed25519_public_key-IsKeyLine :
    (public_key key : Bytes) → normalize_ed25519_public_key public_key ≡ ok key → IsKeyLine key
unfolding normalize_ed25519_public_key
normalize_ed25519_public_key-IsKeyLine public_key key e =
    elim (Option-cases (first_two (fields (line_of public_key)))) [
      | inl n ↦ absurd (ground arith)
      | inr ((kind, payload), f) ↦
          let (k, (blob, d, r)) =
            normalize_ed25519_public_key-parts public_key key kind payload f e in
          let plain =
            first_two-IsNoSpace _ kind payload (fields-IsNoSpace (line_of public_key)) f in
          (
            payload,
            k,
            subst (All IsVisible) (strip_newlines-IsNoSpace payload plain)
                (std_decode-IsVisible payload d),
            λ n. r (read_ssh_field-empty blob (std_decode-empty payload blob n d)),
          )
    ]

visible-IsInLine : (s : Bytes) → All IsVisible s → All IsInLine s
visible-IsInLine [] h = tt
visible-IsInLine (c ∷ s) h = (ground arith, visible-IsInLine s h.1)

last_split :
    (c : ℕ) (s : Bytes)
    → All IsVisible (c ∷ s)
    → (front : Bytes) × (z : ℕ) × (c ∷ s ≡ front ++ (z ∷ [])) × IsVisible z
last_split c [] h = ([], c, refl, h.0)
last_split c (d ∷ s) h =
    let (front, z, e, v) = last_split d s h.1 in (c ∷ front, z, ap (◌∷◌ c) e, v)

pub key_line-IsInLine : (key : Bytes) → IsKeyLine key → All IsInLine key
key_line-IsInLine key (payload, e, v, n) = rw e (
    (
      refl,
      (
        refl,
        (
          refl,
          (
            refl,
            (
              refl,
              (refl, (refl, (refl, (refl, (refl, (refl, (refl, visible-IsInLine payload v))))))),
            ),
          ),
        ),
      ),
    ))

pub key_line-trimmed : (key : Bytes) → IsKeyLine key → trim_space key ≡ key
key_line-trimmed key ([], e, v, n) = absurd (n refl)
key_line-trimmed key (c ∷ s, e, v, n) =
    let (front, z, q, w) = last_split c s v in
    let k = e ∙ ap (λ p. ed25519 ++ (32 ∷ p)) q in
    rw k (trim_space-visible 115 (drop 1 ed25519 ++ (32 ∷ front)) z refl w)
