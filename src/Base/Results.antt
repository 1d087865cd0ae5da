-- ===== src/Base/Results.antt =====
-- Results of Go functions `(value, error)`; `Fault` is the type of their errors.
use mathlib.Core.Path.{◌≡◌, refl}
use mathlib.Core.Option.{Option, none, some}
use mathlib.Core.Bool.{Bool, true, false}
use mathlib.Core.Logic.{◌⊎◌, inl, inr}

pub data Result {ℓ κ} (F : Type κ) (A : Type ℓ) : Type (ℓ ⊔ κ) where
  ok : A → Result F A
  err : F → Result F A

-- `do` blocks: an error ends the function.
infixl 5 ◌>>=◌ ◌>>◌
abbrev pub ◌>>=◌ {ℓ κ ι} :
    {Fault : Type ι} {A : Type ℓ} {B : Type κ}
    → Result Fault A
    → (A → Result Fault B)
    → Result Fault B
err fault >>= next = err fault
ok value >>= next = next value

abbrev pub ◌>>◌ {ℓ ι} :
    {Fault : Type ι} {B : Type ℓ} → Result Fault (Unit {0}) → Result Fault B → Result Fault B
err fault >> next = err fault
ok value >> next = next

-- `if bad { return err }`
abbrev pub refuse_if {ι} : {F : Type ι} → Bool → F → Result F (Unit {0})
refuse_if true e = err e
refuse_if false e = ok tt

-- `if err != nil { return other }`
abbrev pub or_err {ℓ ι} : {F : Type ι} {A : Type ℓ} → Option A → F → Result F A
or_err none e = err e
or_err (some a) e = ok a

-- What a successful `do` block has passed through.
pub ok_of_bind {ℓ κ ι} :
    {Fault : Type ι} {A : Type ℓ} {B : Type κ} (next : A → Result Fault B) (r : Result Fault A)
    {b : B}
    → r >>= next ≡ ok b
    → (value : A) × (r ≡ ok value) × (next value ≡ ok b)
ok_of_bind next (err fault) e = cc
ok_of_bind next (ok value) e = (value, refl, e)

pub Result-cases {ℓ ι} :
    {F : Type ι} {A : Type ℓ} (r : Result F A) → ((a : A) × (r ≡ ok a)) ⊎ ((e : F) × (r ≡ err e))
Result-cases (ok a) = inl (a, refl)
Result-cases (err e) = inr (e, refl)
