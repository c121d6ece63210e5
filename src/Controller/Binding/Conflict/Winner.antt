-- ===== src/Controller/Binding/Conflict/Winner.antt =====
-- `pickWinner` and `arbitrate`: the winner is the least of the bindings that are not being deleted.
use mathlib.Core.List.{Memᴰ}
use le_to_alicloud.Prelude.{
  ◌≡◌, ◌⊎◌, refl, inl, inr, true, false, Option, none, some, List, [], ◌∷◌, All, arith, Bool-cases,
  subst, sym,
}
use le_to_alicloud.Api.Binding.{AliyunCertificateBinding}
use le_to_alicloud.Controller.Binding.Conflict.{
  less_binding, is_deleting, beats, pick_from, pick_winner,
}
use le_to_alicloud.Controller.Binding.Conflict.Order.{
  SameKey, less_binding_irrefl, less_binding_trans, less_binding-cases,
}

abbrev Deleting : AliyunCertificateBinding → Type 0
Deleting c = is_deleting c ≡ true

abbrev pub Candidate : AliyunCertificateBinding → List AliyunCertificateBinding → Type 0
Candidate w items = Memᴰ w items × (is_deleting w ≡ false)

-- no candidate stands before `w`
abbrev pub NotBefore : AliyunCertificateBinding → AliyunCertificateBinding → Type 0
NotBefore w c = Deleting c ⊎ (less_binding c w ≡ false)

abbrev pub Winner : List AliyunCertificateBinding → Option AliyunCertificateBinding → Type 0
Winner items none = All Deleting items
Winner items (some w) = Candidate w items × All (NotBefore w) items

less_binding_respects :
    (a b c : AliyunCertificateBinding) → SameKey b c → less_binding a b ≡ less_binding a c
unfolding less_binding
less_binding_respects a b c h = ground (arith, h.0, h.1)

not_less_trans :
    (a b c : AliyunCertificateBinding)
    → less_binding a b ≡ false
    → less_binding b c ≡ false
    → less_binding a c ≡ false
not_less_trans a b c h k = elim (less_binding-cases b c) [
  | inl x ↦ absurd (ground arith)
  | inr (inl same) ↦ ground (arith, less_binding_respects a b c same)
  | inr (inr x) ↦ ground (arith, less_binding_trans a c b)
]

-- the winner so far against the winner in the end
abbrev Kept : Option AliyunCertificateBinding → AliyunCertificateBinding → Type 0
Kept none w = Unit
Kept (some v) w = less_binding v w ≡ false

abbrev Picked :
    Option AliyunCertificateBinding
    → List AliyunCertificateBinding
    → Option AliyunCertificateBinding
    → Type 0
Picked o items none = (o ≡ none) × All Deleting items
Picked o items (some w) = ((o ≡ some w) ⊎ Candidate w items) × Kept o w × All (NotBefore w) items

skip :
    (c : AliyunCertificateBinding) (items : List AliyunCertificateBinding)
    (o r : Option AliyunCertificateBinding)
    → Deleting c
    → Picked o items r
    → Picked o (c ∷ items) r
skip c items o none d h = (h.0, (d, h.1))
skip c items o (some w) d (inl e, k, h) = (inl e, k, (inl d, h))
skip c items o (some w) d (inr m, k, h) = (inr (Memᴰ.tail m.0, m.1), k, (inl d, h))

take_over :
    (c : AliyunCertificateBinding) (items : List AliyunCertificateBinding)
    (o r : Option AliyunCertificateBinding)
    → is_deleting c ≡ false
    → beats c o ≡ true
    → Picked (some c) items r
    → Picked o (c ∷ items) r
take_over c items o none live h (e, x) = absurd cc
take_over c items o (some w) live h (m, k, x) = (inr (member m, live_of m), kept o h, (inr k, x))
  where
    member : (some c ≡ some w) ⊎ Candidate w items → Memᴰ w (c ∷ items)
    member (inl e) = Memᴰ.head cc
    member (inr n) = Memᴰ.tail n.0

    live_of : (some c ≡ some w) ⊎ Candidate w items → is_deleting w ≡ false
    live_of (inl e) = cc
    live_of (inr n) = n.1

    kept : (o : Option AliyunCertificateBinding) → beats c o ≡ true → Kept o w
    kept none h = tt
    kept (some v) h = ground (arith, less_binding_trans c v w)

stand :
    (c : AliyunCertificateBinding) (items : List AliyunCertificateBinding)
    (o r : Option AliyunCertificateBinding)
    → beats c o ≡ false
    → Picked o items r
    → Picked o (c ∷ items) r
stand c items none r h x = absurd cc
stand c items (some v) none h x = absurd cc
stand c items (some v) (some w) h (inl e, k, x) = (inl e, k, (inr (not_less_trans c v w h k), x))
stand c items (some v) (some w) h (inr m, k, x) =
    (inr (Memᴰ.tail m.0, m.1), k, (inr (not_less_trans c v w h k), x))

start : (o : Option AliyunCertificateBinding) → Picked o [] o
start none = (refl, tt)
start (some w) = (inl refl, less_binding_irrefl w, tt)

pick_from-Picked :
    (items : List AliyunCertificateBinding) (o : Option AliyunCertificateBinding)
    → Picked o items (pick_from o items)
unfolding pick_from
pick_from-Picked [] o = start o
pick_from-Picked (c ∷ items) o = elim (Bool-cases (is_deleting c)) [
  | inl d ↦ rw d (skip c items o _ d (pick_from-Picked items o))
  | inr live ↦ elim (Bool-cases (beats c o)) [
    | inl h ↦ rw (live, h) (take_over c items o _ live h (pick_from-Picked items (some c)))
    | inr h ↦ rw (live, h) (stand c items o _ h (pick_from-Picked items o))
  ]
]

to_winner :
    (items : List AliyunCertificateBinding) (r : Option AliyunCertificateBinding)
    → Picked none items r
    → Winner items r
to_winner items none h = h.1
to_winner items (some w) (inl e, k, h) = absurd cc
to_winner items (some w) (inr m, k, h) = (m, h)

-- `pickWinner` of a list of bindings is one of them that is not being deleted, before which none
-- of the others that are not being deleted stands; it is nil if all of them are being deleted.
pub pick_winner-Winner : (items : List AliyunCertificateBinding) → Winner items (pick_winner items)
unfolding pick_winner
pick_winner-Winner items = to_winner items _ (pick_from-Picked items none)

all_at :
    (P : AliyunCertificateBinding → Type 0) (x : AliyunCertificateBinding)
    (xs : List AliyunCertificateBinding)
    → Memᴰ x xs
    → All P xs
    → P x
all_at P x [] m h = elim m [ ]
all_at P x (y ∷ ys) (Memᴰ.head e) h = subst P (sym e) h.0
all_at P x (y ∷ ys) (Memᴰ.tail m) h = all_at P x ys m h.1

same_key :
    (v w : AliyunCertificateBinding)
    → less_binding v w ≡ false
    → less_binding w v ≡ false
    → SameKey v w
same_key v w h k = elim (less_binding-cases v w) [
  | inl x ↦ absurd cc
  | inr (inl same) ↦ same
  | inr (inr x) ↦ absurd cc
]

not_before :
    (c w : AliyunCertificateBinding)
    → is_deleting c ≡ false
    → NotBefore w c
    → less_binding c w ≡ false
not_before c w live (inl d) = absurd cc
not_before c w live (inr h) = h

-- Two lists in which the same bindings are candidates have winners of the same age and UID: if `v`
-- wins in one list and `w` in the other, and each is a candidate of both, then they are the same
-- for the order.
pub pick_winner_agrees :
    (xs ys : List AliyunCertificateBinding) (v w : AliyunCertificateBinding)
    → pick_winner xs ≡ some v
    → pick_winner ys ≡ some w
    → Memᴰ v ys
    → Memᴰ w xs
    → SameKey v w
pick_winner_agrees xs ys v w ev ew m n =
    let hv = subst (Winner xs) ev (pick_winner-Winner xs) in
    let hw = subst (Winner ys) ew (pick_winner-Winner ys) in
    same_key v w (not_before v w hv.0.1 (all_at (NotBefore w) v ys m hw.1))
      (not_before w v hw.0.1 (all_at (NotBefore v) w xs n hv.1))
