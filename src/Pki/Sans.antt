-- ===== src/Pki/Sans.antt =====
-- pkg/pki/sans.go. `strings.ToLower` follows Unicode's tables: it is the parameter `to_lower`.
pub mod Labels
pub mod Spec
pub mod Missing
use le_to_alicloud.Prelude.{
  ℕ, Bool, true, false, not, ◌&&◌, ◌||◌, List, [], ◌∷◌, Text, codes, is_empty, text_eq, text_lt,
  has_prefix, any, length, ltb, ◌==◌, if◌then◌else◌,
}

abbrev pub dot : ℕ
dot = b'.'

abbrev pub star : ℕ
star = b'*'

abbrev cons_head : ℕ → List Text → List Text
cons_head c [] = (c ∷ []) ∷ []
cons_head c (l ∷ ls) = (c ∷ l) ∷ ls

-- `strings.Split(s, ".")`
pub split_dots : Text → List Text
split_dots [] = [] ∷ []
split_dots (c ∷ s) = let r = split_dots s in if c == dot then [] ∷ r else cons_head c r

-- `strings.TrimSuffix(s, ".")`
pub trim_dot : Text → Text
trim_dot [] = []
trim_dot (c ∷ s) = if c == dot && is_empty s then [] else c ∷ trim_dot s

abbrev pub has_star : Text → Bool
has_star = any (λ c. c == star)

-- the loop of `Covers` over the labels after the first
pub labels_match : List Text → List Text → Bool
labels_match [] hl = true
labels_match (_ ∷ _) [] = false
labels_match (p ∷ pl) (h ∷ hl) =
    if is_empty p || has_star p || not (text_eq p h) then false else labels_match pl hl

-- the first label of the host must not be empty
abbrev pub wild_labels : List Text → List Text → Bool
wild_labels [] hl = false
wild_labels (_ ∷ _) [] = false
wild_labels (p ∷ pl) (h ∷ hl) = labels_match pl hl && not (is_empty h)

-- `Covers` after both names are folded
pub covers_folded : Text → Text → Bool
unfolding split_dots labels_match
covers_folded p h =
    if is_empty p || is_empty h
    then false
    else (if text_eq p h
        then true
        else (if not (has_prefix p (codes "*."))
            then false
            else (let pl = split_dots p in
                let hl = split_dots h in
                if ltb (length pl) 3 || not (length pl == length hl)
                then false
                else wild_labels pl hl)))

-- `sort.Strings`
pub insert : Text → List Text → List Text
insert x [] = x ∷ []
insert x (y ∷ ys) = if text_lt y x then y ∷ insert x ys else x ∷ y ∷ ys

pub sort_strings : List Text → List Text
unfolding insert
sort_strings [] = []
sort_strings (x ∷ xs) = insert x (sort_strings xs)

module _ (to_lower : Text → Text) where
  pub fold : Text → Text
  unfolding trim_dot
  fold s = to_lower (trim_dot s)

  -- `Covers`
  pub covers : Text → Text → Bool
  unfolding fold covers_folded
  covers pattern host = covers_folded (fold pattern) (fold host)

  -- the loop of `Missing`: `seen` holds the keys met so far
  pub missing_from : List Text → List Text → List Text → List Text
  unfolding covers
  missing_from dns_names seen [] = []
  missing_from dns_names seen (r ∷ rs) =
      let key = fold r in
      let dup = any (text_eq key) seen in
      let rest = missing_from dns_names (if dup then seen else key ∷ seen) rs in
      if dup || any (λ n. covers n r) dns_names then rest else r ∷ rest

  -- `Missing`
  pub missing : List Text → List Text → List Text
  unfolding missing_from sort_strings
  missing dns_names required = sort_strings (missing_from dns_names [] required)
