-- ===== src/Base/Results.antt =====
-- `Result<T, E>` of the program, and the `?` operator as a bind.
use mathlib.Core.Path.{◌≡◌, refl}
use mathlib.Core.Bool.{Bool, true, false}
use mathlib.Core.Logic.{◌⊎◌, inl, inr}
use mathlib.Core.Option.{Option, none, some}

pub data Result {ℓ κ} (A : Type ℓ) (E : Type κ) : Type (ℓ ⊔ κ) where
  ok : A → Result A E
  err : E → Result A E

module _ {ℓ κ} {A : Type ℓ} {E : Type κ} where
  pub Result-cases : (r : Result A E) → ((a : A) × (r ≡ ok a)) ⊎ ((e : E) × (r ≡ err e))
  Result-cases (ok a) = inl (a, refl)
  Result-cases (err e) = inr (e, refl)

  abbrev pub map_err {μ} : {F : Type μ} → (E → F) → Result A E → Result A F
  map_err f (ok a) = ok a
  map_err f (err e) = err (f e)

  abbrev pub map_ok {μ} : {B : Type μ} → (A → B) → Result A E → Result B E
  map_ok f (ok a) = ok (f a)
  map_ok f (err e) = err e

  abbrev pub ok_or : Option A → E → Result A E
  ok_or (some a) e = ok a
  ok_or none e = err e

abbrev pub is_some {ℓ} : {A : Type ℓ} → Option A → Bool
is_some none = false
is_some (some a) = true
