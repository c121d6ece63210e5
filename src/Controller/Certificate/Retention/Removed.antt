-- ===== src/Controller/Certificate/Retention/Removed.antt =====
-- A history from which the oldest generations were removed, and the deletions that this made.
use mathlib.Core.List.{Memᴰ}
use le_to_alicloud.Prelude.{
  ◌≡◌, ◌⊎◌, ◌≤◌, refl, inl, inr, ℕ, suc, none, some, List, [], ◌∷◌, ◌++◌, Text, All, All-append,
  length, length-append, append_assoc, append-nil, arith, ap, sym, ◌∙◌, subst,
}
use le_to_alicloud.Api.Certificate.{CertificateGeneration}
use le_to_alicloud.Controller.Certificate.Retention.{split_oldest, snoc_of}

pub split_oldest-append :
    (gs : List CertificateGeneration)
    → ((split_oldest gs ≡ none) × (gs ≡ []))
      ⊎ ((init : List CertificateGeneration) × (oldest : CertificateGeneration) × (split_oldest gs
            ≡ some (init, oldest))
          × (gs ≡ init ++ oldest ∷ []))
unfolding split_oldest
split_oldest-append [] = inl (refl, refl)
split_oldest-append (g ∷ gs) = elim (split_oldest-append gs) [
  | inl (e, nil) ↦ inr ([], g, ap (λ o. some (snoc_of g o)) e, ap (λ r. g ∷ r) nil)
  | inr (init, oldest, e, split) ↦
      inr (g ∷ init, oldest, ap (λ o. some (snoc_of g o)) e, ap (λ r. g ∷ r) split)
]

mem-append_left :
    (x : CertificateGeneration) (xs ys : List CertificateGeneration) → Memᴰ x xs → Memᴰ x (xs ++ ys)
mem-append_left x [] ys m = elim m [ ]
mem-append_left x (y ∷ xs) ys (Memᴰ.head e) = Memᴰ.head e
mem-append_left x (y ∷ xs) ys (Memᴰ.tail m) = Memᴰ.tail (mem-append_left x xs ys m)

mem-append_last :
    (x : CertificateGeneration) (xs : List CertificateGeneration) → Memᴰ x (xs ++ x ∷ [])
mem-append_last x [] = Memᴰ.head refl
mem-append_last x (y ∷ xs) = Memᴰ.tail (mem-append_last x xs)

-- Removal of old generations, with the guards that a predicate stands for.
module _ (Spent : CertificateGeneration → Type 0) where
  -- the deletion is of the certificate of a generation in the history that the guards release
  abbrev pub OfSpent : List CertificateGeneration → ℕ × Text → Type 0
  OfSpent h d = (g : CertificateGeneration) × Memᴰ g h × Spent g × (g.cert_id ≡ some d.0)

  -- From one history and list of deletions to another: the oldest generations may be dropped, `n`
  -- at most, all of them released, and deletions may be added, all of released certificates.
  abbrev pub Removed :
      ℕ
      → List CertificateGeneration
      → List (ℕ × Text)
      → List CertificateGeneration
      → List (ℕ × Text)
      → Type 0
  Removed n h d h' d' =
      (dropped : List CertificateGeneration) × (ds : List (ℕ × Text)) × (h ≡ h' ++ dropped)
      × (length dropped ≤ n)
      × All Spent dropped
      × (d' ≡ ds ++ d)
      × All (OfSpent h) ds

  -- The deletions of one generation: none, or that of its certificate.
  abbrev pub Touched : CertificateGeneration → List (ℕ × Text) → List (ℕ × Text) → Type 0
  Touched g d d' =
      (d' ≡ d) ⊎ ((id : ℕ) × (token : Text) × (g.cert_id ≡ some id) × (d' ≡ (id, token) ∷ d))

  pub Removed-none :
      (n : ℕ) (h : List CertificateGeneration) (d : List (ℕ × Text)) → Removed n h d h d
  Removed-none n h d = ([], [], sym (append-nil h), omega arith, tt, refl, tt)

  pub Removed-failed :
      (n : ℕ) (h init : List CertificateGeneration) (g : CertificateGeneration)
      (d d' : List (ℕ × Text))
      → h ≡ init ++ g ∷ []
      → Spent g
      → Touched g d d'
      → Removed n h d h d'
  Removed-failed n h init g d d' e spent (inl same) =
      subst (Removed n h d h) (sym same) (Removed-none n h d)
  Removed-failed n h init g d d' e spent (inr (id, token, c, one)) = (
    [],
    (id, token) ∷ [],
    sym (append-nil h),
    omega arith,
    tt,
    one,
    ((g, subst (Memᴰ g) (sym e) (mem-append_last g init), spent, c), tt),
  )

  weaken :
      (init : List CertificateGeneration) (g : CertificateGeneration) (ds : List (ℕ × Text))
      → All (OfSpent init) ds
      → All (OfSpent (init ++ g ∷ [])) ds
  weaken init g [] h = tt
  weaken init g (d ∷ ds) h =
      ((h.0.0, mem-append_left h.0.0 init (g ∷ []) h.0.1, h.0.2, h.0.3), weaken init g ds h.1)

  pub Removed-init :
      (n : ℕ) (init h' : List CertificateGeneration) (g : CertificateGeneration)
      (d d1 d' : List (ℕ × Text))
      → Spent g
      → Touched g d d1
      → Removed n init d1 h' d'
      → Removed (suc n) (init ++ g ∷ []) d h' d'
  Removed-init n init h' g d d1 d' spent t (dropped, ds, e, bound, all, added, of) = (
    dropped ++ g ∷ [],
    more t,
    ap (λ r. r ++ g ∷ []) e ∙ append_assoc h' dropped (g ∷ []),
    omega (arith, length-append dropped (g ∷ []), bound),
    All-append Spent dropped (g ∷ []) all (spent, tt),
    calls t,
    of_all t,
  )
    where
      more : Touched g d d1 → List (ℕ × Text)
      more (inl same) = ds
      more (inr (id, token, c, one)) = ds ++ (id, token) ∷ []

      calls : (t : Touched g d d1) → d' ≡ more t ++ d
      calls (inl same) = added ∙ ap (λ r. ds ++ r) same
      calls (inr (id, token, c, one)) =
          added ∙ ap (λ r. ds ++ r) one ∙ sym (append_assoc ds ((id, token) ∷ []) d)

      of_all : (t : Touched g d d1) → All (OfSpent (init ++ g ∷ [])) (more t)
      of_all (inl same) = weaken init g ds of
      of_all (inr (id, token, c, one)) =
          All-append (OfSpent (init ++ g ∷ [])) ds ((id, token) ∷ []) (weaken init g ds of)
            ((g, mem-append_last g init, spent, c), tt)
