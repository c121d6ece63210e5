-- ===== src/Pki/Sans/Missing.antt =====
-- `Missing` lists uncovered names, in order, and leaves none of them out.
use mathlib.Core.List.{Memᴰ}
use le_to_alicloud.Prelude.{
  ◌≡◌, ◌↔◌, refl, ap, ◌∙◌, Bool, true, false, List, [], ◌∷◌, arith, Text, All, any, text_eq,
  text_eq_iff, text_lt, inl, inr, Bool-cases, if◌then◌else◌,
}
use le_to_alicloud.Pki.Sans.{covers, fold, missing, missing_from, insert, sort_strings}

text_lt_asym : (a b : Text) → text_lt a b ≡ true → text_lt b a ≡ false
unfolding text_lt
text_lt_asym [] [] h = refl
text_lt_asym [] (y ∷ b) h = refl
text_lt_asym (x ∷ a) [] h = absurd (cc)
text_lt_asym (x ∷ a) (y ∷ b) h = ground (arith, text_lt_asym a b)

-- No name is smaller than the one before it.
abbrev pub IsSorted : List Text → Type 0
IsSorted [] = Unit
IsSorted (x ∷ []) = Unit
IsSorted (x ∷ y ∷ r) = (text_lt y x ≡ false) × IsSorted (y ∷ r)

IsSorted-insert_behind :
    (x y : Text) (ys : List Text)
    → text_lt x y ≡ false
    → IsSorted (y ∷ ys)
    → IsSorted (insert x ys)
    → IsSorted (y ∷ insert x ys)
unfolding insert
IsSorted-insert_behind x y [] h s i = (h, i)
IsSorted-insert_behind x y (z ∷ ys) h s i = elim (Bool-cases (text_lt z x)) [
  | inl e ↦ rw e (s.0, rw e at i)
  | inr e ↦ rw e (h, rw e at i)
]

IsSorted-tail : (x : Text) (ys : List Text) → IsSorted (x ∷ ys) → IsSorted ys
IsSorted-tail x [] h = tt
IsSorted-tail x (y ∷ ys) h = h.1

IsSorted-insert : (x : Text) (ys : List Text) → IsSorted ys → IsSorted (insert x ys)
unfolding insert
IsSorted-insert x [] h = tt
IsSorted-insert x (y ∷ ys) h =
    let ih = IsSorted-insert x ys (IsSorted-tail y ys h) in
    elim (Bool-cases (text_lt y x)) [
      | inl e ↦ rw e (IsSorted-insert_behind x y ys (text_lt_asym y x e) h ih)
      | inr e ↦ rw e (e, h)
    ]

IsSorted-sort : (xs : List Text) → IsSorted (sort_strings xs)
unfolding sort_strings
IsSorted-sort [] = tt
IsSorted-sort (x ∷ xs) = IsSorted-insert x (sort_strings xs) (IsSorted-sort xs)

module _ (P : Text → Type 0) where
  All-insert : (x : Text) (ys : List Text) → P x → All P ys → All P (insert x ys)
  unfolding insert
  All-insert x [] p h = (p, tt)
  All-insert x (y ∷ ys) p h = elim (Bool-cases (text_lt y x)) [
    | inl e ↦ rw e (h.0, All-insert x ys p h.1)
    | inr e ↦ rw e (p, h)
  ]

  All-sort : (xs : List Text) → All P xs → All P (sort_strings xs)
  unfolding sort_strings
  All-sort [] h = tt
  All-sort (x ∷ xs) h = All-insert x (sort_strings xs) h.0 (All-sort xs h.1)

insert-ne : (x : Text) (ys : List Text) → insert x ys ≡ [] → ⊥
unfolding insert
insert-ne x [] e = cc
insert-ne x (y ∷ ys) e = ground arith

sort-nil : (xs : List Text) → sort_strings xs ≡ [] → xs ≡ []
unfolding sort_strings
sort-nil [] e = refl
sort-nil (x ∷ xs) e = absurd (insert-ne x (sort_strings xs) e)

module _ (to_lower : Text → Text) (dns_names : List Text) where
  abbrev pub covered_by : Text → Bool
  covered_by r = any (λ n. covers to_lower n r) dns_names

any_covers-fold :
    (to_lower : Text → Text) (dns_names : List Text) (r s : Text)
    → fold to_lower r ≡ fold to_lower s
    → covered_by to_lower dns_names r ≡ covered_by to_lower dns_names s
unfolding covers
any_covers-fold to_lower [] r s e = refl
any_covers-fold to_lower (n ∷ ns) r s e = rw (e, any_covers-fold to_lower ns r s e)

module _ (to_lower : Text → Text) (dns_names : List Text) where
  -- The keys met so far belong to covered names.
  abbrev SeenCovered : List Text → Type 0
  SeenCovered seen =
      (r : Text)
      → any (text_eq (fold to_lower r)) seen ≡ true
      → covered_by to_lower dns_names r ≡ true

  SeenCovered-cons :
      (r : Text) (seen : List Text)
      → covered_by to_lower dns_names r ≡ true
      → SeenCovered seen
      → SeenCovered (fold to_lower r ∷ seen)
  SeenCovered-cons r seen c h s e =
      elim (Bool-cases (text_eq (fold to_lower s) (fold to_lower r))) [
        | inl eq ↦ any_covers-fold to_lower dns_names s r ((text_eq_iff _ _).0 eq) ∙ c
        | inr ne ↦ h s (rw ne at e)
      ]

  missing_from-nil :
      (seen required : List Text)
      → SeenCovered seen
      → missing_from to_lower dns_names seen required ≡ []
      → All (λ r. covered_by to_lower dns_names r ≡ true) required
  unfolding missing_from
  missing_from-nil seen [] h e = tt
  missing_from-nil seen (r ∷ rs) h e = elim (Bool-cases (any (text_eq (fold to_lower r)) seen)) [
    | inl dup ↦ (h r dup, missing_from-nil seen rs h (rw dup at e))
    | inr new ↦ elim (Bool-cases (covered_by to_lower dns_names r)) [
      | inl c ↦ (
        c,
        missing_from-nil (fold to_lower r ∷ seen) rs (SeenCovered-cons r seen c h)
            (rw (new, c) at e),
      )
      | inr u ↦ absurd (let e' = rw (new, u) at e in cc)
    ]
  ]

  missing_from-covered :
      (seen required : List Text)
      → All (λ r. covered_by to_lower dns_names r ≡ true) required
      → missing_from to_lower dns_names seen required ≡ []
  unfolding missing_from
  missing_from-covered seen [] h = refl
  missing_from-covered seen (r ∷ rs) h = ground (
    arith,
    missing_from-covered
        (if any (text_eq (fold to_lower r)) seen then seen else fold to_lower r ∷ seen) rs h.1,
  )

  abbrev pub Uncovered : List Text → Text → Type 0
  Uncovered required r = (covered_by to_lower dns_names r ≡ false) × Memᴰ r required

  weaken : (r : Text) (rs xs : List Text) → All (Uncovered rs) xs → All (Uncovered (r ∷ rs)) xs
  weaken r rs [] h = tt
  weaken r rs (x ∷ xs) h = ((h.0.0, Memᴰ.tail h.0.1), weaken r rs xs h.1)

  missing_from-Uncovered :
      (seen required : List Text)
      → All (Uncovered required) (missing_from to_lower dns_names seen required)
  unfolding missing_from
  missing_from-Uncovered seen [] = tt
  missing_from-Uncovered seen (r ∷ rs) = elim (Bool-cases (any (text_eq (fold to_lower r)) seen)) [
    | inl dup ↦ rw dup (weaken r rs _ (missing_from-Uncovered seen rs))
    | inr new ↦ elim (Bool-cases (covered_by to_lower dns_names r)) [
      | inl c ↦ rw (new, c) (weaken r rs _ (missing_from-Uncovered (fold to_lower r ∷ seen) rs))
      | inr u ↦
          rw (new, u)
            (
              (u, Memᴰ.head refl),
              weaken r rs _ (missing_from-Uncovered (fold to_lower r ∷ seen) rs),
            )
    ]
  ]

-- `Missing` is empty exactly when each required name is covered by one of the certificate's.
pub missing-nil_iff :
    (to_lower : Text → Text) (dns_names required : List Text)
    → (missing to_lower dns_names required ≡ [])
      ↔ All (λ r. covered_by to_lower dns_names r ≡ true) required
unfolding missing
missing-nil_iff to_lower dns_names required = (
  λ e. missing_from-nil to_lower dns_names [] required (λ r h. absurd (cc)) (sort-nil _ e),
  λ h. ap sort_strings (missing_from-covered to_lower dns_names [] required h),
)

-- The names that `Missing` returns are required ones that no name of the certificate covers, and
-- they stand in ascending order.
pub missing_sound :
    (to_lower : Text → Text) (dns_names required : List Text)
    → All (Uncovered to_lower dns_names required) (missing to_lower dns_names required)
      × IsSorted (missing to_lower dns_names required)
unfolding missing
missing_sound to_lower dns_names required = (
  All-sort _ _ (missing_from-Uncovered to_lower dns_names [] required),
  IsSorted-sort (missing_from to_lower dns_names [] required),
)
