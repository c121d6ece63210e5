-- ===== src/Aliyun/Listing/Pages.antt =====
-- `FindUploaded` against the list that the pages are cut from.
use le_to_alicloud.Prelude.{
  ◌≡◌, refl, ap, ◌∙◌, sym, subst, ℕ, zero, suc, ◌+◌, ◌*◌, ◌≤◌, ◌<◌, Option, none, some, List, [],
  ◌∷◌, ◌++◌, append_assoc, length, take, drop, length-take, length-drop, take-drop, drop-drop,
  take_all, arith, ok, err, Option-cases, inl, inr, ◌⊎◌, Bool-cases, ltb,
}
use le_to_alicloud.Run.{Run}
use le_to_alicloud.Aliyun.Errors.{Error}
use le_to_alicloud.Aliyun.Clients.{CertSummary}
use le_to_alicloud.Aliyun.Listing.{
  CertificateOrder, should_fetch_next_page, summaries, too_many_pages, find_from, find_uploaded,
}

abbrev pub Orders : Type 0
Orders = List (Option CertificateOrder)

summaries-append : (xs ys : Orders) → summaries (xs ++ ys) ≡ summaries xs ++ summaries ys
unfolding summaries
summaries-append [] ys = refl
summaries-append (none ∷ xs) ys = summaries-append xs ys
summaries-append (some o ∷ xs) ys = elim (Option-cases o.certificate_id) [
  | inl skipped ↦ ground (arith, skipped, summaries-append xs ys)
  | inr (id, there) ↦ ground (arith, there, summaries-append xs ys)
]

module _ {W : Type 0} (fetch : ℕ → Run Error W (Option Orders)) where
  -- From a page on, the pages are cut from the list, fifty entries each.
  abbrev pub Served : Orders → ℕ → Type 0
  Served rest page =
      (q : ℕ) (w : W) → (fetch (page + q) w).0 ≡ ok (some (take 50 (drop (50 * q) rest)))

  Served-next : (rest : Orders) (page : ℕ) → Served rest page → Served (drop 50 rest) (suc page)
  Served-next rest page served q w =
      subst (λ x. (fetch x w).0 ≡ ok (some (take 50 (drop (50 * q) (drop 50 rest))))) (omega arith)
        (served (suc q) w
          ∙ ap (λ (r : Orders). ok (some (take 50 r)))
              (sym (drop-drop 50 (50 * q) (50 * suc q) rest (omega arith))))

  first_page :
      (page : ℕ) (rest : Orders) (w : W)
      → Served rest page
      → (fetch page w).0 ≡ ok (some (take 50 rest))
  first_page page rest w served =
      subst (λ x. (fetch x w).0 ≡ ok (some (take 50 rest))) (omega arith) (served 0 w)

  last_page :
      (turns page : ℕ) (out : List CertSummary) (rest : Orders) (w : W)
      → Served rest page
      → length rest < 50
      → (find_from fetch out page (suc turns) w).0 ≡ ok (out ++ summaries rest)
  unfolding find_from should_fetch_next_page
  last_page turns page out rest w served short =
      ground (arith, first_page page rest w served, take_all 50 rest (omega arith), short)

  full_page :
      (turns page : ℕ) (out : List CertSummary) (rest : Orders) (w : W)
      → Served rest page
      → 50 ≤ length rest
      → page < 200
      → (find_from fetch out page (suc turns) w).0
        ≡ (find_from fetch (out ++ summaries (take 50 rest)) (suc page) turns (fetch page w).1).0
  unfolding find_from should_fetch_next_page
  full_page turns page out rest w served full early =
      ground (arith, first_page page rest w served, length-take 50 rest, full, early)

  final_page :
      (turns page : ℕ) (out : List CertSummary) (rest : Orders) (w : W)
      → Served rest page
      → 50 ≤ length rest
      → page ≡ 200
      → (find_from fetch out page (suc turns) w).0 ≡ err too_many_pages
  unfolding find_from should_fetch_next_page
  final_page turns page out rest w served full late =
      ground (arith, first_page page rest w served, length-take 50 rest, full, late)

  find_from_ends :
      (turns page : ℕ) (out : List CertSummary) (rest : Orders) (w : W)
      → page + turns ≡ 201
      → Served rest page
      → length rest < 50 * turns
      → (find_from fetch out page turns w).0 ≡ ok (out ++ summaries rest)
  find_from_ends zero page out rest w count served short = absurd (omega arith)
  find_from_ends (suc turns) page out rest w count served short =
      elim (Bool-cases (ltb (length rest) 50)) [
        | inl few ↦ last_page turns page out rest w served (ground (arith, few))
        | inr full ↦
            full_page turns page out rest w served (ground (arith, full))
              (ground (arith, full, count, short))
            ∙ find_from_ends turns (suc page) (out ++ summaries (take 50 rest)) (drop 50 rest)
                (fetch page w).1 (omega (arith, count)) (Served-next rest page served)
                (ground (arith, full, short, length-drop 50 rest))
            ∙ ap ok (
                append_assoc out (summaries (take 50 rest)) (summaries (drop 50 rest))
                ∙ ap (λ (r : List CertSummary). out ++ r)
                    (sym (summaries-append (take 50 rest) (drop 50 rest))
                      ∙ ap summaries (take-drop 50 rest)))
      ]

  find_from_refuses :
      (turns page : ℕ) (out : List CertSummary) (rest : Orders) (w : W)
      → page + turns ≡ 201
      → Served rest page
      → 50 * turns ≤ length rest
      → (find_from fetch out page turns w).0 ≡ err too_many_pages
  unfolding find_from
  find_from_refuses zero page out rest w count served long = refl
  find_from_refuses (suc zero) page out rest w count served long =
      final_page zero page out rest w served (omega (arith, long)) (omega (arith, count))
  find_from_refuses (suc (suc turns)) page out rest w count served long =
      full_page (suc turns) page out rest w served (omega (arith, long)) (omega (arith, count))
      ∙ find_from_refuses (suc turns) (suc page) (out ++ summaries (take 50 rest)) (drop 50 rest)
          (fetch page w).1 (omega (arith, count)) (Served-next rest page served)
          (ground (arith, long, length-drop 50 rest))

  -- If the pages are cut from a list, fifty entries each, `FindUploaded` answers with the summaries of
  -- the whole list if it has fewer than ten thousand entries, and with the error `TooManyPages`
  -- otherwise: it loses no entry without saying so.
  pub find_uploaded_lem :
      (all : Orders) (w : W)
      → Served all 1
      → (length all < 10000) × ((find_uploaded fetch w).0 ≡ ok (summaries all))
        ⊎ ((10000 ≤ length all) × ((find_uploaded fetch w).0 ≡ err too_many_pages))
  unfolding find_uploaded
  find_uploaded_lem all w served = elim (Bool-cases (ltb (length all) 10000)) [
    | inl few ↦
        let short : length all < 10000 = ground (arith, few) in
        inl (short, find_from_ends 200 1 [] all w refl served short)
    | inr many ↦
        let long : 10000 ≤ length all = ground (arith, many) in
        inr (long, find_from_refuses 200 1 [] all w refl served long)
  ]
