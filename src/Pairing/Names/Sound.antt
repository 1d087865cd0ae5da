-- ===== src/Pairing/Names/Sound.antt =====
-- What an accepted name is, for the code that prints it, sends it and writes it to a file.
use otherhost.Base.{ℕ, ◌≤◌, ◌<◌, ◌≡◌, ◌≢◌, true, false, [], ◌∷◌, arith, Bytes, all, All, length, ok}
use otherhost.Text.{trim_space}
use otherhost.Text.Trim.{trim_space-trim_space}
use otherhost.Pairing.Names.{
  is_empty, is_allowed, is_alphanumeric, name_punctuation, clean_device_name,
}

-- A printable ASCII character that is no quote, no `=`, no `/` and no control character.
pub record IsPlain (c : ℕ) : Type 0 where
  pub printable : (b' ' ≤ c) × (c < 127)
  pub not_equals : c ≢ b'='
  pub not_quote : (c ≢ b'"') × (c ≢ b'\'')
  pub not_slash : (c ≢ b'/') × (c ≢ b'\\')

is_allowed-IsPlain : (c : ℕ) → is_allowed name_punctuation c ≡ true → IsPlain c
unfolding is_allowed is_alphanumeric
is_allowed-IsPlain c h = ground arith

all-is_allowed : (s : Bytes) → all (is_allowed name_punctuation) s ≡ true → All IsPlain s
all-is_allowed [] h = tt
all-is_allowed (c ∷ s) h = ground (arith, is_allowed-IsPlain c, all-is_allowed s)

pub record IsCleanName (name : Bytes) : Type 0 where
  pub plain : All IsPlain name
  pub size : (1 ≤ length name) × (length name ≤ 64)
  pub trimmed : trim_space name ≡ name

-- What the two tests of `cleanDeviceName` leave.
pub record IsAccepted (name : Bytes) : Type 0 where
  pub not_empty : is_empty name ≡ false
  pub short : length name ≤ 64
  pub allowed : all (is_allowed name_punctuation) name ≡ true

clean_device_name-IsAccepted :
    (value : Bytes) {name : Bytes}
    → clean_device_name value ≡ ok name
    → (name ≡ trim_space value) × IsAccepted name
unfolding clean_device_name
clean_device_name-IsAccepted value h = ground arith

pub clean_of_accepted :
    (name : Bytes) → trim_space name ≡ name → IsAccepted name → clean_device_name name ≡ ok name
unfolding clean_device_name
clean_of_accepted name fixed h = rw fixed (ground arith)

length_pos : (s : Bytes) → is_empty s ≡ false → 1 ≤ length s
unfolding is_empty
length_pos [] h = cc
length_pos (c ∷ s) h = omega arith

trimmed_of_clean :
    (value : Bytes) {name : Bytes} → clean_device_name value ≡ ok name → trim_space name ≡ name
trimmed_of_clean value h =
    let (e, _) = clean_device_name-IsAccepted value h in rw e (trim_space-trim_space value)

-- A device name that `cleanDeviceName` returns has 1 to 64 characters, all of them plain, begins and
-- ends with no white space, and is returned unchanged when it is cleaned again.
pub clean_device_name-IsCleanName :
    (value : Bytes) {name : Bytes}
    → clean_device_name value ≡ ok name
    → IsCleanName name × (clean_device_name name ≡ ok name)
clean_device_name-IsCleanName value {name} h =
    let (_, a) = clean_device_name-IsAccepted value h in
    let fixed = trimmed_of_clean value h in
    (
      record {
        plain = all-is_allowed name a.allowed;
        size = (length_pos name a.not_empty, a.short);
        trimmed = fixed;
      },
      clean_of_accepted name fixed a,
    )
