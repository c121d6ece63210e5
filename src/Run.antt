-- ===== src/Run.antt =====
-- The state and error monad of the code that calls out: what was done before an error stays done.
use le_to_alicloud.Prelude.{Res, ok, err}

abbrev pub Run : Type 0 → Type 0 → Type 0 → Type 0
Run E S A = S → Res E A × S

module _ {E S A : Type 0} where
  abbrev pub pure : A → Run E S A
  pure a s = (ok a, s)

  abbrev pub raise : E → Run E S A
  raise e s = (err e, s)

  abbrev pub gets : (S → A) → Run E S A
  gets f s = (ok (f s), s)

  -- An error becomes a value: `if err := m(); err != nil`.
  abbrev pub attempt : Run E S A → Run E S (Res E A)
  attempt m s = let (r, s') = m s in (ok r, s')

infixl 5 ◌>>=◌ ◌>>◌
abbrev pub ◌>>=◌ : {E S A B : Type 0} → Run E S A → (A → Run E S B) → Run E S B
◌>>=◌ m f s = let (r, s') = m s in elim r [ ok a ↦ f a s' | err e ↦ (err e, s') ]

abbrev pub ◌>>◌ : {E S A B : Type 0} → Run E S A → Run E S B → Run E S B
m >> k = m >>= λ _. k
