-- ===== src/Base/Maps.antt =====
-- Go maps keyed by strings, as association lists that `insert` keeps free of a second entry.
use Prim.Native.Nat.{◌+◌, ◌≤◌}
use mathlib.Core.Path.{◌≡◌, refl}
use mathlib.Core.Bool.{Bool, true, false}
use mathlib.Core.List.{List, [], ◌∷◌}
use mathlib.Core.Option.{Option, none, some}
use native.Mathlib.Omega.{arith}
use otherhost.Base.Lists.{Bytes, bytes_eq, bytes_eq_iff, bytes_eq_refl, length}
use otherhost.Base.Tests.{if◌then◌else◌}

-- `values[key]` of a `map[string]string`.
abbrev pub or_blank : Option Bytes → Bytes
or_blank none = []
or_blank (some value) = value

module _ {ℓ} {V : Type ℓ} where
  abbrev pub find : Bytes → List (Bytes × V) → Option V
  find k [] = none
  find k ((j, v) ∷ m) = if bytes_eq j k then some v else find k m

  abbrev pub insert : Bytes → V → List (Bytes × V) → List (Bytes × V)
  insert k v [] = (k, v) ∷ []
  insert k v ((j, w) ∷ m) = if bytes_eq j k then (k, v) ∷ m else (j, w) ∷ insert k v m

  abbrev pub delete : Bytes → List (Bytes × V) → List (Bytes × V)
  delete k [] = []
  delete k ((j, w) ∷ m) = if bytes_eq j k then delete k m else (j, w) ∷ delete k m

  abbrev pub has : Bytes → List (Bytes × V) → Bool
  has k [] = false
  has k ((j, v) ∷ m) = if bytes_eq j k then true else has k m

  pub find-insert :
      (k j : Bytes) (v : V) (m : List (Bytes × V))
      → find j (insert k v m) ≡ (if bytes_eq k j then some v else find j m)
  find-insert k j v [] = refl
  find-insert k j v ((i, w) ∷ m) =
      ground (arith, bytes_eq_iff k j, bytes_eq_iff i k, bytes_eq_iff i j, find-insert k j v m)

  pub find-delete :
      (k j : Bytes) (m : List (Bytes × V))
      → find j (delete k m) ≡ (if bytes_eq k j then none else find j m)
  find-delete k j [] = ground arith
  find-delete k j ((i, w) ∷ m) =
      ground (arith, bytes_eq_iff k j, bytes_eq_iff i k, bytes_eq_iff i j, find-delete k j m)

  pub length-insert-le :
      (k : Bytes) (v : V) (m : List (Bytes × V)) → length (insert k v m) ≤ length m + 1
  length-insert-le k v [] = omega arith
  length-insert-le k v ((j, w) ∷ m) = ground (arith, length-insert-le k v m)

  pub length-insert_absent :
      (k : Bytes) (v : V) (m : List (Bytes × V))
      → find k m ≡ none
      → length (insert k v m) ≡ length m + 1
  length-insert_absent k v [] h = omega arith
  length-insert_absent k v ((j, w) ∷ m) h = ground (arith, length-insert_absent k v m)

  pub length-insert_present :
      (k : Bytes) (v w : V) (m : List (Bytes × V))
      → find k m ≡ some w
      → length (insert k v m) ≡ length m
  length-insert_present k v w [] h = ground arith
  length-insert_present k v w ((j, x) ∷ m) h = ground (arith, length-insert_present k v w m)

  pub length-delete-le : (k : Bytes) (m : List (Bytes × V)) → length (delete k m) ≤ length m
  length-delete-le k [] = omega arith
  length-delete-le k ((j, w) ∷ m) = ground (arith, length-delete-le k m)

  pub length-delete_present :
      (k : Bytes) (v : V) (m : List (Bytes × V))
      → find k m ≡ some v
      → length (delete k m) + 1 ≤ length m
  length-delete_present k v [] h = ground arith
  length-delete_present k v ((j, w) ∷ m) h =
      ground (arith, length-delete_present k v m, length-delete-le k m)

  -- No key stands twice.
  abbrev pub IsMap : List (Bytes × V) → Type ℓ
  IsMap [] = Unit
  IsMap ((k, v) ∷ m) = (find k m ≡ none) × IsMap m

  pub IsMap-insert : (k : Bytes) (v : V) (m : List (Bytes × V)) → IsMap m → IsMap (insert k v m)
  IsMap-insert k v [] u = (refl, u)
  IsMap-insert k v ((j, w) ∷ m) (h, u) =
      ground (arith, bytes_eq_iff j k, bytes_eq_iff k j, find-insert k j v m, IsMap-insert k v m u)

  pub IsMap-delete : (k : Bytes) (m : List (Bytes × V)) → IsMap m → IsMap (delete k m)
  IsMap-delete k [] u = u
  IsMap-delete k ((j, w) ∷ m) (h, u) = ground (arith, find-delete k j m, IsMap-delete k m u)

  pub delete_absent : (k : Bytes) (m : List (Bytes × V)) → find k m ≡ none → delete k m ≡ m
  delete_absent k [] h = refl
  delete_absent k ((j, w) ∷ m) h = ground (arith, delete_absent k m)

  pub length-delete :
      (k : Bytes) (v : V) (m : List (Bytes × V))
      → IsMap m
      → find k m ≡ some v
      → length (delete k m) + 1 ≡ length m
  length-delete k v [] u h = ground arith
  length-delete k v ((j, w) ∷ m) (n, u) h =
      ground (arith, bytes_eq_iff j k, delete_absent k m, length-delete k v m u)

  pub find-has : (k : Bytes) (m : List (Bytes × V)) → has k m ≡ false → find k m ≡ none
  find-has k [] h = refl
  find-has k ((j, w) ∷ m) h = ground (arith, find-has k m)

  pub has-find : (k : Bytes) (v : V) (m : List (Bytes × V)) → find k m ≡ some v → has k m ≡ true
  has-find k v [] h = ground arith
  has-find k v ((j, w) ∷ m) h = ground (arith, has-find k v m)

  pub delete-insert :
      (k : Bytes) (v : V) (m : List (Bytes × V)) → find k m ≡ none → delete k (insert k v m) ≡ m
  delete-insert k v [] h = ground (arith, bytes_eq_refl k)
  delete-insert k v ((j, w) ∷ m) h = ground (arith, delete-insert k v m)
