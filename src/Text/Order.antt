-- ===== src/Text/Order.antt =====
-- The order of Go's strings.
use otherhost.Base.{◌≡◌, refl, Bool, true, false, ◌&&◌, ◌||◌, [], ◌∷◌, arith, ltb, ◌==◌, Bytes}

-- Go's `<` on strings.
unfoldable pub bytes_lt : Bytes → Bytes → Bool
bytes_lt s [] = false
bytes_lt [] (y ∷ t) = true
bytes_lt (x ∷ s) (y ∷ t) = ltb x y || (x == y && bytes_lt s t)

pub bytes_lt_trans :
    (a b c : Bytes) → bytes_lt a b ≡ true → bytes_lt b c ≡ true → bytes_lt a c ≡ true
unfolding bytes_lt
bytes_lt_trans a b [] p q = q
bytes_lt_trans a [] (z ∷ c) p q = absurd (ground arith)
bytes_lt_trans [] (y ∷ b) (z ∷ c) p q = refl
bytes_lt_trans (x ∷ a) (y ∷ b) (z ∷ c) p q = ground (arith, bytes_lt_trans a b c)

pub bytes_lt-asym : (a b : Bytes) → bytes_lt a b ≡ true → bytes_lt b a ≡ false
unfolding bytes_lt
bytes_lt-asym a [] p = absurd (ground arith)
bytes_lt-asym [] (y ∷ b) p = refl
bytes_lt-asym (x ∷ a) (y ∷ b) p = ground (arith, bytes_lt-asym a b)

pub bytes_lt-total : (a b : Bytes) → bytes_lt a b ≡ false → bytes_lt b a ≡ false → a ≡ b
unfolding bytes_lt
bytes_lt-total [] [] p q = refl
bytes_lt-total (x ∷ a) [] p q = absurd (ground arith)
bytes_lt-total [] (y ∷ b) p q = absurd (ground arith)
bytes_lt-total (x ∷ a) (y ∷ b) p q = ground (arith, bytes_lt-total a b)

-- What is not in front of a text that is not in front of another is not in front of that.
pub bytes_lt-below :
    (a b c : Bytes) → bytes_lt b a ≡ false → bytes_lt c b ≡ false → bytes_lt c a ≡ false
unfolding bytes_lt
bytes_lt-below [] b c p q = refl
bytes_lt-below (x ∷ a) [] c p q = absurd (ground arith)
bytes_lt-below (x ∷ a) (y ∷ b) [] p q = absurd (ground arith)
bytes_lt-below (x ∷ a) (y ∷ b) (z ∷ c) p q = ground (arith, bytes_lt-below a b c)
