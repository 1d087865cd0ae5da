-- ===== src/Pairing/Exchange/Texts.antt =====
-- The strings of the sealed messages are ASCII, and so valid UTF-8, where the checks say what they hold.
use otherhost.Base.{◌≡◌, refl, true, [], ◌∷◌, ◌++◌, arith, ap, ◌∙◌, Bytes, All, All-append, all, ok}
use otherhost.Pairing.Install.KeyLine.{IsKeyLine}
use otherhost.Pairing.Names.Sound.{IsPlain, clean_device_name-IsCleanName}
use otherhost.Pairing.Names.{
  clean_device_name, identifier_punctuation, is_allowed, is_alphanumeric, valid_identifier,
}
use otherhost.Pairing.Ssh.{ed25519}
use otherhost.Text.Utf8.{IsAscii, valid_utf8, valid_utf8_ascii}
use otherhost.Text.{IsVisible}

visible-IsAscii : (s : Bytes) → All IsVisible s → All IsAscii s
visible-IsAscii [] h = tt
visible-IsAscii (c ∷ s) h = (ground (arith, h.0), visible-IsAscii s h.1)

IsAscii-ed25519 : All IsAscii ed25519
IsAscii-ed25519 =
    (refl, (refl, (refl, (refl, (refl, (refl, (refl, (refl, (refl, (refl, (refl, tt)))))))))))

pub valid_utf8-key_line : (key : Bytes) → IsKeyLine key → valid_utf8 key ≡ true
valid_utf8-key_line key (payload, e, v, n) =
    ap valid_utf8 e
    ∙ valid_utf8_ascii (ed25519 ++ (32 ∷ payload)) (
        All-append IsAscii ed25519 (32 ∷ payload) IsAscii-ed25519 (refl, visible-IsAscii payload v))

plain-IsAscii : (s : Bytes) → All IsPlain s → All IsAscii s
plain-IsAscii [] h = tt
plain-IsAscii (c ∷ s) h = let small = h.0.printable.1 in (ground arith, plain-IsAscii s h.1)

pub valid_utf8-clean_device_name :
    (value name : Bytes) → clean_device_name value ≡ ok name → valid_utf8 name ≡ true
valid_utf8-clean_device_name value name e =
    valid_utf8_ascii name (plain-IsAscii name (clean_device_name-IsCleanName value e).0.plain)

allowed-IsAscii : (s : Bytes) → all (is_allowed identifier_punctuation) s ≡ true → All IsAscii s
unfolding is_allowed is_alphanumeric
allowed-IsAscii [] h = tt
allowed-IsAscii (c ∷ s) h = (ground arith, allowed-IsAscii s (ground arith))

pub valid_utf8-valid_identifier :
    (value : Bytes) → valid_identifier value ≡ true → valid_utf8 value ≡ true
unfolding valid_identifier
valid_utf8-valid_identifier value h = valid_utf8_ascii value (allowed-IsAscii value (ground arith))
