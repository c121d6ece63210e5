-- ===== src/Pki/Sans/Labels.antt =====
-- Splitting a name at its dots, and putting the labels together again.
use le_to_alicloud.Prelude.{
  ℕ, ◌≡◌, refl, sym, ==_iff, ap, ◌∙◌, List, [], ◌∷◌, ◌++◌, arith, Text, All, any, ◌==◌, false, inl,
  inr, Bool-cases,
}
use le_to_alicloud.Pki.Sans.{dot, cons_head, split_dots}

pub join_dots : List Text → Text
join_dots [] = []
join_dots (l ∷ []) = l
join_dots (l ∷ m ∷ ls) = l ++ dot ∷ join_dots (m ∷ ls)

abbrev pub NoDot : Text → Type 0
NoDot l = any (λ c. c == dot) l ≡ false

cons_head-cons :
    (c : _) (r : List Text)
    → (l : Text) × (ls : List Text) × (r ≡ l ∷ ls)
    → (l : Text) × (ls : List Text) × (cons_head c r ≡ l ∷ ls)
cons_head-cons c [] h = (c ∷ [], [], refl)
cons_head-cons c (l ∷ ls) h = (c ∷ l, ls, refl)

-- There is always a first label.
pub split_dots-cons : (s : Text) → (l : Text) × (ls : List Text) × (split_dots s ≡ l ∷ ls)
unfolding split_dots
split_dots-cons [] = ([], [], refl)
split_dots-cons (c ∷ s) = elim (Bool-cases (c == dot)) [
  | inl e ↦ ([], split_dots s, rw e)
  | inr e ↦ rw e (cons_head-cons c (split_dots s) (split_dots-cons s))
]

join_dots-cons_head :
    (c : _) (l : Text) (ls : List Text) → join_dots (cons_head c (l ∷ ls)) ≡ c ∷ join_dots (l ∷ ls)
unfolding join_dots
join_dots-cons_head c l [] = refl
join_dots-cons_head c l (m ∷ ls) = refl

join_dots-nil : (l : Text) (ls : List Text) → join_dots ([] ∷ l ∷ ls) ≡ dot ∷ join_dots (l ∷ ls)
unfolding join_dots
join_dots-nil l ls = refl

join_dots-split_cons :
    (c : _) (s : Text) (l : Text) (ls : List Text)
    → split_dots s ≡ l ∷ ls
    → join_dots (split_dots s) ≡ s
    → join_dots (split_dots (c ∷ s)) ≡ c ∷ s
unfolding split_dots
join_dots-split_cons c s l ls e ih = elim (Bool-cases (c == dot)) [
  | inl d ↦
      rw (d, e)
        (join_dots-nil l ls
          ∙ ap (λ (t : Text). dot ∷ t) (rw e at ih)
          ∙ ap (λ (k : ℕ). k ∷ s) (sym ((==_iff c dot).0 d)))
  | inr d ↦ rw (d, e) (join_dots-cons_head c l ls ∙ ap (λ (t : Text). c ∷ t) (rw e at ih))
]

pub join_dots-split_dots : (s : Text) → join_dots (split_dots s) ≡ s
join_dots-split_dots [] = unfold split_dots join_dots in refl
join_dots-split_dots (c ∷ s) =
    let (l, ls, e) = split_dots-cons s in join_dots-split_cons c s l ls e (join_dots-split_dots s)

-- A text with no dot before a dot is the first label.
pub split_dots-append : (l s : Text) → NoDot l → split_dots (l ++ dot ∷ s) ≡ l ∷ split_dots s
unfolding split_dots
split_dots-append [] s h = refl
split_dots-append (c ∷ l) s h = ground (arith, split_dots-append l s)

cons_head-NoDot :
    (c : _) (r : List Text) → (c == dot) ≡ false → All NoDot r → All NoDot (cons_head c r)
cons_head-NoDot c [] e h = (rw e, tt)
cons_head-NoDot c (l ∷ ls) e h = (rw e h.0, h.1)

pub split_dots-NoDot : (s : Text) → All NoDot (split_dots s)
unfolding split_dots
split_dots-NoDot [] = (refl, tt)
split_dots-NoDot (c ∷ s) = elim (Bool-cases (c == dot)) [
  | inl e ↦ rw e (refl, split_dots-NoDot s)
  | inr e ↦ rw e (cons_head-NoDot c (split_dots s) e (split_dots-NoDot s))
]

join_dots-cons :
    (l : Text) (m : Text) (ms : List Text) → join_dots (l ∷ m ∷ ms) ≡ l ++ dot ∷ join_dots (m ∷ ms)
unfolding join_dots
join_dots-cons l m ms = refl

-- A host whose later labels are those of `s` is its first label, a dot and `s`.
pub host_of_labels :
    (h s l : Text) (ls : List Text) → split_dots h ≡ l ∷ ls → split_dots s ≡ ls → h ≡ l ++ dot ∷ s
host_of_labels h s l ls eh es =
    let (m, ms, em) = split_dots-cons s in
    let e : split_dots h ≡ l ∷ m ∷ ms = eh ∙ ap (λ (t : List Text). l ∷ t) (sym es ∙ em) in
    sym (join_dots-split_dots h)
    ∙ (ap join_dots e
        ∙ (join_dots-cons l m ms
            ∙ ap (λ (t : Text). l ++ dot ∷ t) (ap join_dots (sym em) ∙ join_dots-split_dots s)))
