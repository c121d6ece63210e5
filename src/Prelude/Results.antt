-- ===== src/Prelude/Results.antt =====
-- A Go result `(value, error)`.
use mathlib.Core.Path.{◌≡◌, refl}
use mathlib.Core.Logic.{◌⊎◌, inl, inr}
use mathlib.Core.Bool.{Bool, true, false}

pub data Res (E : Type 0) (A : Type 0) : Type 0 where
  ok : A → Res E A
  err : E → Res E A

abbrev pub is_ok : {E A : Type 0} → Res E A → Bool
is_ok (ok _) = true
is_ok (err _) = false

pub Res-cases : {E A : Type 0} (r : Res E A) → ((a : A) × (r ≡ ok a)) ⊎ ((e : E) × (r ≡ err e))
Res-cases (ok a) = inl (a, refl)
Res-cases (err e) = inr (e, refl)
