-- ===== src/Commands/DeviceName.antt =====
-- The name that the Mac pairs under.
use otherhost.Base.{
  ℕ, ◌+◌, ◌<◌, ◌≤◌, ◌≡◌, refl, sym, ap, ◌∙◌, inl, inr, true, ◌==◌, Bool, List, [], ◌∷◌, ◌++◌, arith,
  Bytes, Bool-cases, all, length, length-append, codes, ok,
}
use otherhost.Commands.{portable_character, portable_characters, portable_device_name}
use otherhost.Pairing.Names.Sound.{clean_of_accepted}
use otherhost.Pairing.Names.{clean_device_name, is_allowed, is_empty, name_punctuation}
use otherhost.Text.Trim.{trim_space-part, trim_space-trim_space}
use otherhost.Text.{trim_space}

portable_character-allowed : (c : ℕ) → is_allowed name_punctuation (portable_character c) ≡ true
unfolding is_allowed
portable_character-allowed c = ground arith

portable_characters-accepted :
    (written : ℕ) (value : List ℕ)
    → written < 64
    → (all (is_allowed name_punctuation) (portable_characters written value) ≡ true)
      × (length (portable_characters written value) + written ≤ 64)
unfolding portable_characters
portable_characters-accepted written [] h = (refl, omega arith)
portable_characters-accepted written (c ∷ value) h = elim (Bool-cases (written + 1 == 64)) [
  | inl e ↦ rw e (ground (arith, portable_character-allowed c))
  | inr e ↦
      let rest = portable_characters-accepted (written + 1) value (ground arith) in
      rw e (ground (arith, portable_character-allowed c, rest))
]

all-middle : (p : ℕ → Bool) (a s b : Bytes) → all p (a ++ (s ++ b)) ≡ true → all p s ≡ true
all-middle p [] [] b h = refl
all-middle p [] (c ∷ s) b h = ground (arith, all-middle p [] s b)
all-middle p (c ∷ a) s b h = ground (arith, all-middle p a s b)

-- Trimming leaves allowed characters, and no more of them.
trim_space-accepted :
    (s : Bytes)
    → all (is_allowed name_punctuation) s ≡ true
    → length s ≤ 64
    → (all (is_allowed name_punctuation) (trim_space s) ≡ true) × (length (trim_space s) ≤ 64)
trim_space-accepted s a l =
    let (p, q, e) = trim_space-part s in
    (
      all-middle (is_allowed name_punctuation) p (trim_space s) q
          (ap (all (is_allowed name_punctuation)) (sym e) ∙ a),
      omega (
        arith,
        ap length e,
        length-append p (trim_space s ++ q),
        length-append (trim_space s) q,
        l,
      ),
    )

clean_mac : clean_device_name (codes "Mac") ≡ ok (codes "Mac")
unfolding clean_device_name is_allowed is_empty trim_space
clean_mac = refl

-- Whatever characters the name of the Mac has, the name that it pairs under is a device name that
-- `cleanDeviceName` accepts and leaves as it is.
pub clean_device_name-portable_device_name :
    (value : List ℕ)
    → clean_device_name (portable_device_name value) ≡ ok (portable_device_name value)
unfolding portable_device_name
clean_device_name-portable_device_name value =
    let written = portable_characters 0 value in
    let (a, l) = portable_characters-accepted 0 value (omega arith) in
    let (b, m) = trim_space-accepted written a (omega (arith, l)) in
    elim (Bool-cases (is_empty (trim_space written))) [
      | inl e ↦ rw e clean_mac
      | inr e ↦ rw e (
          clean_of_accepted (trim_space written) (trim_space-trim_space written)
            (record { not_empty = e; short = m; allowed = b }))
    ]
