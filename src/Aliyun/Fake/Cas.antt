-- ===== src/Aliyun/Fake/Cas.antt =====
-- pkg/aliyun/fake/cas.go: the certificate service in memory. The certificates are kept in a list, the
-- newest first, and `byToken` is an association list; the counters of calls are left out.
pub mod Idempotent
use le_to_alicloud.Prelude.{
  ℕ, suc, Bool, true, false, ◌&&◌, ◌||◌, not, Option, none, some, List, [], ◌∷◌, Text, codes,
  is_empty, text_eq, any, ◌==◌, lookup, store, if◌then◌else◌, Res, ok, err,
}
use le_to_alicloud.Run.{Run}
use le_to_alicloud.Aliyun.Errors.{Error, ErrClass, make_cloud, plain}
use le_to_alicloud.Aliyun.Fake.Queue.{pop}

pub record Cert : Type 0 where
  pub id : ℕ
  pub name : Text
  pub cert_pem : Text
  pub key_pem : Text
  pub token : Text

pub record FakeCas : Type 0 where
  pub next_id : ℕ
  pub certs : List Cert
  pub by_token : List (Text × ℕ)
  pub upload_errs : List Error
  pub delete_errs : List Error
  pub fail_after_commit : Option Error

-- `ErrDuplicateName`
abbrev pub err_duplicate_name : Error
err_duplicate_name =
    make_cloud ErrClass.permanent (codes "Upload") (codes "CertNameDuplicated")
      (plain (codes "name already exists"))

abbrev pub has_name : Text → List Cert → Bool
has_name name certs = any (λ c. text_eq c.name name) certs

-- the certId that a token got before; the empty token has none
pub id_of_token : Text → FakeCas → Option ℕ
id_of_token token f = if is_empty token then none else lookup token f.by_token

abbrev with_token : Text → ℕ → List (Text × ℕ) → List (Text × ℕ)
with_token token id m = if is_empty token then m else store token id m

-- the certificate is stored; the answer may be lost
pub commit_upload : Text → Text → Text → Text → Run Error FakeCas ℕ
commit_upload name cert key token f =
    let id = suc f.next_id in
    let entry : Cert = record {
      id = id;
      name = name;
      cert_pem = cert;
      key_pem = key;
      token = token;
    } in
    let f' = record f {
      next_id = id;
      certs = entry ∷ f.certs;
      by_token = with_token token id f.by_token;
    } in
    elim f.fail_after_commit [
      | none ↦ (ok id, f')
      | some e ↦ (err e, record f' { fail_after_commit = none })
    ]

-- `Upload` after the errors that were asked for
pub upload_stored : Text → Text → Text → Text → Run Error FakeCas ℕ
upload_stored name cert key token f = elim (id_of_token token f) [
  | some id ↦ (ok id, f)
  | none ↦
      if has_name name f.certs
      then (err err_duplicate_name, f)
      else commit_upload name cert key token f
]

-- `Upload`
pub upload : Text → Text → Text → Text → Run Error FakeCas ℕ
upload name cert key token f =
    let (failure, rest) = pop f.upload_errs in
    let f' = record f { upload_errs = rest } in
    elim failure [ some e ↦ (err e, f') | none ↦ upload_stored name cert key token f' ]

abbrev pub has_id : ℕ → List Cert → Bool
has_id id certs = any (λ c. c.id == id) certs

-- `delete(f.certs, certID)`
unfoldable pub without_cert : ℕ → List Cert → List Cert
without_cert id [] = []
without_cert id (c ∷ cs) = if c.id == id then without_cert id cs else c ∷ without_cert id cs

-- the tokens of other certificates
unfoldable pub without_token_of : ℕ → List (Text × ℕ) → List (Text × ℕ)
without_token_of id [] = []
without_token_of id ((t, i) ∷ m) =
    if i == id then without_token_of id m else (t, i) ∷ without_token_of id m

-- `Delete` after the errors that were asked for
unfoldable pub delete_stored : ℕ → Run Error FakeCas Unit
delete_stored id f =
    if not (has_id id f.certs)
    then (
      err (
          make_cloud ErrClass.not_found (codes "Delete") (codes "CertNotExist")
            (plain (codes "not found"))),
      f,
    )
    else (
      ok tt,
      record f { certs = without_cert id f.certs; by_token = without_token_of id f.by_token },
    )

-- `Delete`
unfoldable pub delete : ℕ → Text → Run Error FakeCas Unit
delete id token f =
    let (failure, rest) = pop f.delete_errs in
    let f' = record f { delete_errs = rest } in
    elim failure [ some e ↦ (err e, f') | none ↦ delete_stored id f' ]
