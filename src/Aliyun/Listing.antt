-- ===== src/Aliyun/Listing.antt =====
-- `FindUploaded` of pkg/aliyun/cas_sdk.go: the pages of a list of certificates. `fetch` is the call
-- for one page, with the wait for the limiter and the classification of its error; `none` is an
-- answer without a body.
pub mod Pages
use le_to_alicloud.Prelude.{
  ℕ, zero, suc, ◌+◌, Bool, true, false, ◌&&◌, ◌||◌, Option, none, some, List, [], ◌∷◌, ◌++◌, Text,
  codes, length, ltb, leb, ◌==◌, if◌then◌else◌, Res, ok, err,
}
use le_to_alicloud.Run.{Run, pure, raise, ◌>>=◌, ◌>>◌}
use le_to_alicloud.Aliyun.Errors.{Error, ErrClass, make_cloud, plain}
use le_to_alicloud.Aliyun.Clients.{CertSummary}

abbrev pub cas_list_page_size : ℕ
cas_list_page_size = 50

abbrev pub cas_list_max_pages : ℕ
cas_list_max_pages = 200

-- an entry of a page, as the SDK has it
pub record CertificateOrder : Type 0 where
  pub certificate_id : Option ℕ
  pub name : Option Text

-- `shouldFetchNextPage`
pub should_fetch_next_page : ℕ → ℕ → ℕ → Bool
should_fetch_next_page got size page =
    if got == 0 || size == 0 || ltb got size then false else ltb page cas_list_max_pages

abbrev text_or_empty : Option Text → Text
text_or_empty none = []
text_or_empty (some t) = t

abbrev with_summary : Option CertificateOrder → List CertSummary → List CertSummary
with_summary none rest = rest
with_summary (some o) rest = elim o.certificate_id [
  | none ↦ rest
  | some id ↦ record { cert_id = id; name = text_or_empty o.name } ∷ rest
]

-- the loop over the entries of a page
pub summaries : List (Option CertificateOrder) → List CertSummary
summaries [] = []
summaries (o ∷ os) = with_summary o (summaries os)

abbrev pub too_many_pages : Error
too_many_pages =
    make_cloud ErrClass.permanent (codes "ListUserCertificateOrder") (codes "TooManyPages")
      (plain (codes "too many pages"))

module _ {W : Type 0} (fetch : ℕ → Run Error W (Option (List (Option CertificateOrder)))) where
  -- The loop from a page on, with the entries so far. The last argument bounds the turns; it is used
  -- up only after the last page that may be asked for.
  pub find_from : List CertSummary → ℕ → ℕ → Run Error W (List CertSummary)
  find_from out page zero = raise too_many_pages
  find_from out page (suc turns) = do
    answer ← fetch page
    elim answer [
      | none ↦ pure out
      | some orders ↦
          let got = length orders in
          let out' = out ++ summaries orders in
          let rest = find_from out' (suc page) turns in
          if should_fetch_next_page got cas_list_page_size page
          then rest
          else (if leb cas_list_page_size got && leb cas_list_max_pages page
              then raise too_many_pages
              else pure out')
    ]

  -- `FindUploaded`
  pub find_uploaded : Run Error W (List CertSummary)
  find_uploaded = find_from [] 1 cas_list_max_pages
