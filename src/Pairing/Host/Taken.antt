-- ===== src/Pairing/Host/Taken.antt =====
-- An element that is taken out of a list, and the others, are of that list.
use otherhost.Base.{ℕ, zero, suc, List, [], ◌∷◌, Option, none, some, All}
use otherhost.Pairing.Host.World.{put_back, take_out}

module _ {ℓ κ} {A : Type ℓ} (P : A → Type κ) where
  abbrev pub TakenAll : Option (A × List A) → Type κ
  TakenAll none = Unit
  TakenAll (some (y, ys)) = P y × All P ys

  put_back-TakenAll : (x : A) (t : Option (A × List A)) → P x → TakenAll t → TakenAll (put_back x t)
  put_back-TakenAll x none px a = tt
  put_back-TakenAll x (some (y, ys)) px (py, a) = (py, (px, a))

  pub take_out-TakenAll : (i : ℕ) (xs : List A) → All P xs → TakenAll (take_out i xs)
  unfolding take_out
  take_out-TakenAll i [] a = tt
  take_out-TakenAll zero (x ∷ xs) a = a
  take_out-TakenAll (suc i) (x ∷ xs) (px, a) =
      put_back-TakenAll x (take_out i xs) px (take_out-TakenAll i xs a)
