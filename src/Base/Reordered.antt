-- ===== src/Base/Reordered.antt =====
-- Lists with the same elements in two orders.
use mathlib.Core.List.{List, ◌∷◌}

-- Neighbours change places.
pub data IsReordered {ℓ} {A : Type ℓ} : List A → List A → Type ℓ where
  same : {l : List A} → IsReordered l l
  behind : {x : A} {a b : List A} → IsReordered a b → IsReordered (x ∷ a) (x ∷ b)
  exchanged : {x y : A} {l : List A} → IsReordered (x ∷ y ∷ l) (y ∷ x ∷ l)
  in_turn : {a b c : List A} → IsReordered a b → IsReordered b c → IsReordered a c
