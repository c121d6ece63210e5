-- ===== src/Prelude/Strings.antt =====
-- What the source calls of Go's package strings on ASCII text: the bytes of longer characters are
-- left as they are.
use Prim.Native.Nat.{ℕ, ◌+◌, ◌-◌}
use mathlib.Core.Path.{◌≡◌, refl}
use mathlib.Core.Bool.{Bool, true, false, ◌&&◌, ◌||◌}
use mathlib.Core.List.{List, [], ◌∷◌}
use native.Mathlib.Omega.{arith}
use le_to_alicloud.Prelude.Tests.{◌==◌, leb, if◌then◌else◌}
use le_to_alicloud.Prelude.Texts.{Text, is_empty, text_eq}

abbrev is_space : ℕ → Bool
is_space c = c == 32 || (leb 9 c && leb c 13)

trim_left : Text → Text
trim_left [] = []
trim_left (c ∷ s) = if is_space c then trim_left s else c ∷ s

trim_right : Text → Text
trim_right [] = []
trim_right (c ∷ s) = let rest = trim_right s in if is_space c && is_empty rest then [] else c ∷ rest

-- `strings.TrimSpace`
unfoldable pub trim_space : Text → Text
unfolding trim_left trim_right
trim_space s = trim_right (trim_left s)

abbrev upper : ℕ → ℕ
upper c = if leb b'a' c && leb c b'z' then c - 32 else c

-- `strings.ToUpper`
unfoldable pub to_upper : Text → Text
to_upper [] = []
to_upper (c ∷ s) = upper c ∷ to_upper s

abbrev is_upper : ℕ → Bool
is_upper c = leb b'A' c && leb c b'Z'

abbrev same_letter : ℕ → ℕ → Bool
same_letter c d = c == d || (is_upper c && d == c + 32) || (is_upper d && c == d + 32)

-- `strings.EqualFold`
unfoldable pub equal_fold : Text → Text → Bool
equal_fold [] [] = true
equal_fold (c ∷ s) (d ∷ t) = same_letter c d && equal_fold s t
equal_fold _ _ = false

abbrev with_first : ℕ → List Text → List Text
with_first c [] = (c ∷ []) ∷ []
with_first c (p ∷ ps) = (c ∷ p) ∷ ps

-- `strings.Split` at commas
unfoldable pub split_comma : Text → List Text
split_comma [] = [] ∷ []
split_comma (c ∷ s) = let rest = split_comma s in if c == b',' then [] ∷ rest else with_first c rest

same_letter-upper : (c d : ℕ) → same_letter c d ≡ (upper c == upper d)
same_letter-upper c d = ground arith

pub equal_fold-to_upper : (s t : Text) → equal_fold s t ≡ text_eq (to_upper s) (to_upper t)
unfolding equal_fold to_upper text_eq
equal_fold-to_upper [] [] = refl
equal_fold-to_upper [] (d ∷ t) = refl
equal_fold-to_upper (c ∷ s) [] = refl
equal_fold-to_upper (c ∷ s) (d ∷ t) = rw (same_letter-upper c d, equal_fold-to_upper s t) refl
