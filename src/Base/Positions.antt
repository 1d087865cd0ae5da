-- ===== src/Base/Positions.antt =====
-- Elements of a list by their number, and maps that are read in the order of their entries.
use Prim.Native.Nat.{ℕ, zero, suc, ◌≤◌}
use mathlib.Core.Path.{◌≡◌, refl}
use mathlib.Core.List.{List, [], ◌∷◌, ◌++◌}
use mathlib.Core.Option.{Option, none, some}
use native.Mathlib.Omega.{arith}
use otherhost.Base.Lists.{Bytes, bytes_eq_iff, bytes_eq_refl, length}
use otherhost.Base.Maps.{IsMap, delete, delete_absent, find, insert}

module _ {ℓ} {A : Type ℓ} where
  abbrev pub element : ℕ → List A → Option A
  element i [] = none
  element zero (x ∷ xs) = some x
  element (suc i) (x ∷ xs) = element i xs

  abbrev pub without : ℕ → List A → List A
  without i [] = []
  without zero (x ∷ xs) = xs
  without (suc i) (x ∷ xs) = x ∷ without i xs

  abbrev pub replace : ℕ → A → List A → List A
  replace i y [] = []
  replace zero y (x ∷ xs) = y ∷ xs
  replace (suc i) y (x ∷ xs) = x ∷ replace i y xs

  pub length-without-le : (i : ℕ) (xs : List A) → length (without i xs) ≤ length xs
  length-without-le i [] = omega arith
  length-without-le zero (x ∷ xs) = omega arith
  length-without-le (suc i) (x ∷ xs) = omega (arith, length-without-le i xs)

  pub length-replace : (i : ℕ) (y : A) (xs : List A) → length (replace i y xs) ≡ length xs
  length-replace i y [] = refl
  length-replace zero y (x ∷ xs) = refl
  length-replace (suc i) y (x ∷ xs) = omega (arith, length-replace i y xs)

module _ {ℓ} {V : Type ℓ} where
  pub find-element :
      (i : ℕ) (m : List (Bytes × V)) (k : Bytes) (v : V)
      → IsMap m
      → element i m ≡ some (k, v)
      → find k m ≡ some v
  find-element i [] k v u e = ground arith
  find-element zero ((j, w) ∷ m) k v u e = ground (arith, bytes_eq_refl k)
  find-element (suc i) ((j, w) ∷ m) k v (n, u) e =
      ground (arith, bytes_eq_iff j k, find-element i m k v u e)

  pub delete-element :
      (i : ℕ) (m : List (Bytes × V)) (k : Bytes) (v : V)
      → IsMap m
      → element i m ≡ some (k, v)
      → delete k m ≡ without i m
  delete-element i [] k v u e = refl
  delete-element zero ((j, w) ∷ m) k v (n, u) e = ground (arith, bytes_eq_refl k, delete_absent k m)
  delete-element (suc i) ((j, w) ∷ m) k v (n, u) e =
      ground (arith, bytes_eq_iff j k, find-element i m k v u e, delete-element i m k v u e)

  pub insert-element :
      (i : ℕ) (m : List (Bytes × V)) (k : Bytes) (v w : V)
      → IsMap m
      → element i m ≡ some (k, v)
      → insert k w m ≡ replace i (k, w) m
  insert-element i [] k v w u e = ground arith
  insert-element zero ((j, x) ∷ m) k v w (n, u) e = ground (arith, bytes_eq_refl k)
  insert-element (suc i) ((j, x) ∷ m) k v w (n, u) e =
      ground (arith, bytes_eq_iff j k, find-element i m k v u e, insert-element i m k v w u e)

  -- A new key goes behind the others.
  pub insert_absent :
      (k : Bytes) (v : V) (m : List (Bytes × V))
      → find k m ≡ none
      → insert k v m ≡ m ++ ((k, v) ∷ [])
  insert_absent k v [] h = refl
  insert_absent k v ((j, w) ∷ m) h = ground (arith, insert_absent k v m)
