-- ===== src/Pki/Sans/Spec.antt =====
-- `Covers` decides the rule of RFC 6125 that its comment states, here written without labels'
-- indices: a wildcard stands for exactly one label in front of a suffix that both names share.
use le_to_alicloud.Prelude.{
  ℕ, ◌≤◌, ◌≡◌, ◌≢◌, ◌↔◌, refl, sym, ap, true, false, List, [], ◌∷◌, ◌++◌, arith, Text, codes, All,
  length, suc, subst, is_empty, has_prefix, text_eq, text_eq_iff, text_eq_refl, inl, inr,
  Bool-cases,
}
use le_to_alicloud.Pki.Sans.{
  dot, star, has_star, split_dots, labels_match, wild_labels, covers_folded, fold, covers,
}
use le_to_alicloud.Pki.Sans.Labels.{
  NoDot, host_of_labels, split_dots-cons, split_dots-append, split_dots-NoDot,
}

abbrev pub PlainLabel : Text → Type 0
PlainLabel l = (is_empty l ≡ false) × (has_star l ≡ false)

pub data Covered (p h : Text) : Type 0 where
  same : p ≢ [] → p ≡ h → Covered p h
  wildcard :
      (label suffix : Text)
      → p ≡ star ∷ dot ∷ suffix
      → h ≡ label ++ dot ∷ suffix
      → label ≢ []
      → NoDot label
      → 2 ≤ length (split_dots suffix)
      → All PlainLabel (split_dots suffix)
      → Covered p h

labels_match_sound :
    (pl hl : List Text)
    → length pl ≡ length hl
    → labels_match pl hl ≡ true
    → (pl ≡ hl) × All PlainLabel pl
unfolding labels_match
labels_match_sound [] [] n h = (refl, tt)
labels_match_sound [] (x ∷ hl) n h = absurd (omega arith)
labels_match_sound (p ∷ pl) [] n h = absurd (cc)
labels_match_sound (p ∷ pl) (x ∷ hl) n h = ground (arith, labels_match_sound pl hl, text_eq_iff p x)

labels_match_refl : (ls : List Text) → All PlainLabel ls → labels_match ls ls ≡ true
unfolding labels_match
labels_match_refl [] h = refl
labels_match_refl (l ∷ ls) h = ground (arith, labels_match_refl ls h.1, text_eq_iff l l)

has_prefix-star : (p : Text) → has_prefix p (codes "*.") ≡ true → (s : Text) × (p ≡ star ∷ dot ∷ s)
unfolding has_prefix
has_prefix-star [] h = absurd (cc)
has_prefix-star (a ∷ []) h = absurd (ground arith)
has_prefix-star (a ∷ b ∷ s) h = (s, ground arith)

is_empty-false : (s : Text) → is_empty s ≡ false → s ≢ []
is_empty-false [] h = absurd (cc)
is_empty-false (c ∷ s) h = λ e. cc

split_star : (s : Text) → split_dots (star ∷ dot ∷ s) ≡ (star ∷ []) ∷ split_dots s
unfolding split_dots
split_star s = refl

-- The wildcard branch of `covers_folded`, at a pattern `*.s`.
wild_sound :
    (s h l : Text) (ls : List Text)
    → split_dots h ≡ l ∷ ls
    → 2 ≤ length (split_dots s)
    → suc (length (split_dots s)) ≡ length (split_dots h)
    → wild_labels ((star ∷ []) ∷ split_dots s) (split_dots h) ≡ true
    → Covered (star ∷ dot ∷ s) h
wild_sound s h l ls eh two same_length w =
    let n : length (split_dots s) ≡ length ls = omega (arith, ap length eh, same_length) in
    let w' : wild_labels ((star ∷ []) ∷ split_dots s) (l ∷ ls) ≡ true = rw eh at w in
    let (el, plain) = labels_match_sound (split_dots s) ls n (ground arith) in
    let nd : All NoDot (l ∷ ls) = rw eh at (split_dots-NoDot h) in
    Covered.wildcard l s refl (host_of_labels h s l ls eh el) (is_empty-false l (ground arith)) nd.0
      two plain

wild_case :
    (s : Text) (b : ℕ) (h : Text)
    → text_eq (star ∷ dot ∷ s) (b ∷ h) ≡ false
    → covers_folded (star ∷ dot ∷ s) (b ∷ h) ≡ true
    → (2 ≤ length (split_dots s))
      × (suc (length (split_dots s)) ≡ length (split_dots (b ∷ h)))
      × (wild_labels ((star ∷ []) ∷ split_dots s) (split_dots (b ∷ h)) ≡ true)
unfolding covers_folded has_prefix
wild_case s b h ne e = ground arith

covers_folded_sound : (p h : Text) → covers_folded p h ≡ true → Covered p h
unfolding covers_folded
covers_folded_sound [] h e = absurd (cc)
covers_folded_sound (a ∷ p) [] e = absurd (cc)
covers_folded_sound (a ∷ p) (b ∷ h) e = elim (Bool-cases (text_eq (a ∷ p) (b ∷ h))) [
  | inl eq ↦ Covered.same (λ q. cc) ((text_eq_iff _ _).0 eq)
  | inr ne ↦ elim (Bool-cases (has_prefix (a ∷ p) (codes "*."))) [
    | inr none ↦ absurd (ground arith)
    | inl pre ↦
        let (s, es) = has_prefix-star (a ∷ p) pre in
        let (l, ls, eh) = split_dots-cons (b ∷ h) in
        let (two, same_length, w) =
          wild_case s b h (rw es at ne) (subst (λ q. covers_folded q (b ∷ h) ≡ true) es e) in
        subst (λ q. Covered q (b ∷ h)) (sym es) (wild_sound s (b ∷ h) l ls eh two same_length w)
  ]
]

covers_folded_same : (p : Text) → p ≢ [] → covers_folded p p ≡ true
unfolding covers_folded
covers_folded_same [] h = absurd (h refl)
covers_folded_same (a ∷ p) h = rw (text_eq_refl (a ∷ p))

covers_folded_wild :
    (c : ℕ) (l s : Text)
    → split_dots ((c ∷ l) ++ dot ∷ s) ≡ (c ∷ l) ∷ split_dots s
    → 2 ≤ length (split_dots s)
    → labels_match (split_dots s) (split_dots s) ≡ true
    → covers_folded (star ∷ dot ∷ s) ((c ∷ l) ++ dot ∷ s) ≡ true
unfolding covers_folded has_prefix
covers_folded_wild c l s e two m =
    let n : length (split_dots ((c ∷ l) ++ dot ∷ s)) ≡ suc (length (split_dots s)) = ap length e in
    let w : wild_labels ((star ∷ []) ∷ split_dots s) (split_dots ((c ∷ l) ++ dot ∷ s)) ≡ true =
      rw e (ground arith) in
    ground arith

covers_folded_complete : (p h : Text) → Covered p h → covers_folded p h ≡ true
covers_folded_complete p h (Covered.same ne e) = rw (← e) (covers_folded_same p ne)
covers_folded_complete p h (Covered.wildcard [] s ep eh ne nd two plain) = absurd (ne refl)
covers_folded_complete p h (Covered.wildcard (c ∷ l) s ep eh ne nd two plain) =
    rw (ep, eh)
      (covers_folded_wild c l s (split_dots-append (c ∷ l) s nd) two
        (labels_match_refl (split_dots s) plain))

-- `Covers` answers true exactly when, after folding, the names are equal and not empty, or the
-- pattern is `*.` before a suffix of two labels or more, none of them empty or with a star, and the
-- host is one label that is not empty before a dot and the same suffix.
pub covers_iff :
    (to_lower : Text → Text) (pattern host : Text)
    → (covers to_lower pattern host ≡ true) ↔ Covered (fold to_lower pattern) (fold to_lower host)
unfolding covers
covers_iff to_lower pattern host = (
  covers_folded_sound (fold to_lower pattern) (fold to_lower host),
  covers_folded_complete (fold to_lower pattern) (fold to_lower host),
)
