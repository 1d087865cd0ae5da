-- ===== src/Text/Base64/Letters.antt =====
-- What `StdEncoding.DecodeString` decodes is made of visible characters.
use otherhost.Base.{ℕ, ◌≡◌, refl, [], ◌∷◌, Option, none, some, arith, Bytes, All}
use otherhost.Text.Base64.{
  b64_value, double, quad, std_decode, std_last, std_quads, strip_newlines, triple,
}
use otherhost.Text.{IsVisible}

b64_value-IsVisible : (c : ℕ) {v : ℕ} → b64_value c ≡ some v → IsVisible c
unfolding b64_value
b64_value-IsVisible c h = ground arith

quad-parts :
    (a b c d : Option ℕ) (r : Option Bytes) {out : Bytes}
    → quad a b c d r ≡ some out
    → ((x : ℕ) × (a ≡ some x))
      × ((x : ℕ) × (b ≡ some x))
      × ((x : ℕ) × (c ≡ some x))
      × ((x : ℕ) × (d ≡ some x))
      × ((x : Bytes) × (r ≡ some x))
unfolding quad
quad-parts (some a) (some b) (some c) (some d) (some r) h =
    ((a, refl), (b, refl), (c, refl), (d, refl), (r, refl))
quad-parts none b c d r h = ground arith
quad-parts (some a) none c d r h = ground arith
quad-parts (some a) (some b) none d r h = ground arith
quad-parts (some a) (some b) (some c) none r h = ground arith
quad-parts (some a) (some b) (some c) (some d) none h = ground arith

std_last-IsVisible :
    (a b c d : ℕ) {out : Bytes} → std_last a b c d ≡ some out → All IsVisible (a ∷ b ∷ c ∷ d ∷ [])
unfolding std_last quad triple double
std_last-IsVisible a b c d h = grind (arith, b64_value-IsVisible)

std_quads-IsVisible : (s : Bytes) {out : Bytes} → std_quads s ≡ some out → All IsVisible s
unfolding std_quads
std_quads-IsVisible [] h = tt
std_quads-IsVisible (a ∷ []) h = ground arith
std_quads-IsVisible (a ∷ b ∷ []) h = ground arith
std_quads-IsVisible (a ∷ b ∷ c ∷ []) h = ground arith
std_quads-IsVisible (a ∷ b ∷ c ∷ d ∷ []) h = std_last-IsVisible a b c d h
std_quads-IsVisible (a ∷ b ∷ c ∷ d ∷ e ∷ r) h =
    let ((w, i), (x, j), (y, k), (z, l), (t, m)) = quad-parts _ _ _ _ _ h in
    (
      b64_value-IsVisible a i,
      (
        b64_value-IsVisible b j,
        (b64_value-IsVisible c k, (b64_value-IsVisible d l, std_quads-IsVisible (e ∷ r) m)),
      ),
    )

pub std_decode-IsVisible :
    (s : Bytes) {out : Bytes} → std_decode s ≡ some out → All IsVisible (strip_newlines s)
unfolding std_decode
std_decode-IsVisible s h = std_quads-IsVisible (strip_newlines s) h
