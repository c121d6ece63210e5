-- ===== src/Prelude/Maps.antt =====
-- Go maps with string keys, as association lists.
use mathlib.Core.Path.{◌≡◌}
use mathlib.Core.Bool.{false}
use mathlib.Core.Option.{Option, none, some}
use mathlib.Core.List.{List, [], ◌∷◌}
use native.Mathlib.Omega.{arith}
use le_to_alicloud.Prelude.Tests.{if◌then◌else◌}
use le_to_alicloud.Prelude.Texts.{Text, text_eq, text_eq_refl, text_eq_iff}

module _ {A : Type 0} where
  -- `v, ok := m[key]`
  unfoldable pub lookup : Text → List (Text × A) → Option A
  lookup key [] = none
  lookup key ((k, v) ∷ m) = if text_eq k key then some v else lookup key m

  -- `m[key] = v`
  unfoldable pub store : Text → A → List (Text × A) → List (Text × A)
  store key v [] = (key, v) ∷ []
  store key v ((k, w) ∷ m) = if text_eq k key then (k, v) ∷ m else (k, w) ∷ store key v m

  pub lookup-store :
      (key : Text) (v : A) (m : List (Text × A)) → lookup key (store key v m) ≡ some v
  unfolding lookup store
  lookup-store key v [] = ground (arith, text_eq_refl key)
  lookup-store key v ((k, w) ∷ m) = ground (arith, lookup-store key v m)

  pub lookup-store_other :
      (key other : Text) (v : A) (m : List (Text × A))
      → text_eq key other ≡ false
      → lookup other (store key v m) ≡ lookup other m
  unfolding lookup store
  lookup-store_other key other v [] h = ground (arith, h)
  lookup-store_other key other v ((k, w) ∷ m) h =
      ground (arith, h, lookup-store_other key other v m, text_eq_iff k key, text_eq_iff k other)
