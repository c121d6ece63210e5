-- ===== src/Naming/Shape.antt =====
-- The shape of a CAS name: its length, its alphabet, and the fingerprint at its end.
use le_to_alicloud.Prelude.{
  ℕ, zero, suc, ◌≤◌, ◌<◌, ◌≡◌, refl, sym, true, [], ◌∷◌, ◌++◌, arith, ltb, if◌then◌else◌, length,
  take, length-append, length-take, take_all, All, All-append, All-take, Text, codes, is_empty, inl,
  inr, Bool-cases, min,
}
use le_to_alicloud.Naming.{
  cut, is_word, sanitize_from, sanitize, trim_right, cas_prefix, cas_name, max_cas_name_len,
  prefix_budget, fp_suffix_len,
}

abbrev pub IsWord : Text → Type 0
IsWord = All (λ c. is_word c ≡ true)

pub cut-eq-take : (n : ℕ) (s : Text) → cut n s ≡ take n s
unfolding cut
cut-eq-take n s = elim (Bool-cases (ltb n (length s))) [
  | inl long ↦ rw long
  | inr short ↦ rw short (sym (take_all n s (ground arith)))
]

pub length-cut : (n : ℕ) (s : Text) → length (cut n s) ≡ min n (length s)
length-cut n s = rw (cut-eq-take n s) (length-take n s)

word_or_score : (b : ℕ) → is_word (if is_word b then b else b'_') ≡ true
word_or_score b = elim (Bool-cases (is_word b)) [ inl e ↦ rw e e | inr e ↦ rw e ]

sanitize_from-IsWord : (s : Text) (skip : ℕ) → IsWord (sanitize_from s skip)
unfolding sanitize_from
sanitize_from-IsWord [] skip = tt
sanitize_from-IsWord (b ∷ rest) zero = (word_or_score b, sanitize_from-IsWord rest _)
sanitize_from-IsWord (b ∷ rest) (suc k) = sanitize_from-IsWord rest k

trim_right-IsWord : (s : Text) → IsWord s → IsWord (trim_right s)
unfolding trim_right
trim_right-IsWord [] h = tt
trim_right-IsWord (c ∷ s) h = ground (arith, trim_right-IsWord s h.1)

length-trim_right : (s : Text) → length (trim_right s) ≤ length s
unfolding trim_right
length-trim_right [] = omega arith
length-trim_right (c ∷ s) = ground (arith, length-trim_right s)

or_cert-IsWord : (p : Text) → IsWord p → IsWord (if is_empty p then codes "cert" else p)
or_cert-IsWord [] h = (refl, (refl, (refl, (refl, tt))))
or_cert-IsWord (c ∷ p) h = h

or_cert-length : (p : Text) → length p ≤ 50 → length (if is_empty p then codes "cert" else p) ≤ 50
or_cert-length [] h = omega arith
or_cert-length (c ∷ p) h = h

or_cert-pos : (p : Text) → 0 < length (if is_empty p then codes "cert" else p)
or_cert-pos [] = omega arith
or_cert-pos (c ∷ p) = omega arith

cut-IsWord : (n : ℕ) (s : Text) → IsWord s → IsWord (cut n s)
cut-IsWord n s h = rw (cut-eq-take n s) (All-take _ n s h)

cas_prefix-IsWord : (cr : Text) → IsWord (cas_prefix cr)
unfolding cas_prefix
cas_prefix-IsWord cr =
    or_cert-IsWord _ (trim_right-IsWord _ (cut-IsWord prefix_budget _ (sanitize_from-IsWord cr 0)))

cas_prefix-length : (cr : Text) → (0 < length (cas_prefix cr)) × (length (cas_prefix cr) ≤ 50)
unfolding cas_prefix
cas_prefix-length cr = (
  or_cert-pos (trim_right (cut prefix_budget (sanitize cr))),
  or_cert-length _ (
      omega (
        arith,
        length-trim_right (cut prefix_budget (sanitize cr)),
        length-cut prefix_budget (sanitize cr),
      )),
)

-- The outer cut never takes anything away.
pub cas_name-eq : (cr fp : Text) → cas_name cr fp ≡ cas_prefix cr ++ b'_' ∷ take fp_suffix_len fp
unfolding cas_name
cas_name-eq cr fp =
    rw (cut-eq-take fp_suffix_len fp, cut-eq-take max_cas_name_len _)
      (take_all max_cas_name_len (cas_prefix cr ++ b'_' ∷ take fp_suffix_len fp) (
        omega (
          arith,
          length-append (cas_prefix cr) (b'_' ∷ take fp_suffix_len fp),
          cas_prefix-length cr,
          length-take fp_suffix_len fp,
        )))

-- A CAS name of a fingerprint in hex has 2 to 63 characters, all of them letters, digits or
-- underscores, whatever bytes the CR's name has.
pub cas_name_shape :
    (cr fp : Text)
    → IsWord fp
    → (2 ≤ length (cas_name cr fp)) × (length (cas_name cr fp) ≤ 63) × IsWord (cas_name cr fp)
cas_name_shape cr fp h = rw (cas_name-eq cr fp) (
  omega (arith, length-append (cas_prefix cr) (b'_' ∷ take fp_suffix_len fp), cas_prefix-length cr),
  omega (
    arith,
    length-append (cas_prefix cr) (b'_' ∷ take fp_suffix_len fp),
    cas_prefix-length cr,
    length-take fp_suffix_len fp,
  ),
  All-append _ (cas_prefix cr) _ (cas_prefix-IsWord cr) (refl, All-take _ fp_suffix_len fp h),
)
