-- ===== src/Controller/Certificate/Upload.antt =====
-- internal/controller/upload.go.
pub mod Outcome
pub mod Quiet
pub mod Retry
pub mod WriteAhead
use le_to_alicloud.Prelude.{
  ℕ, Bool, true, false, ◌&&◌, ◌||◌, Option, none, some, List, [], ◌∷◌, Text, codes, is_empty,
  text_eq, ◌==◌, if◌then◌else◌, Res, ok, err,
}
use le_to_alicloud.Naming.{cas_name, upload_token}
use le_to_alicloud.Api.Certificate.{
  AliyunCertificate, CertificateGeneration, PendingUpload, upload_enabled,
}
use le_to_alicloud.Aliyun.Errors.{Error, plain, ErrClass, CloudError, as_cloud, class_of}
use le_to_alicloud.Pki.Bundle.{Bundle, PkiError, dns_names, cert_pem, key_pem}
use le_to_alicloud.Controller.World.{
  Env, Call, live_get_ac, patch_ac, cas_upload, cas_find, CertSummary, Round, Act, pure, raise,
  gets, attempt, perform, ◌>>=◌, ◌>>◌, set_ac, set_orig, event, now, cas_client,
}

-- `c != nil && c.Fingerprint == fp`
abbrev pub generation_is : Text → Option CertificateGeneration → Bool
generation_is fp none = false
generation_is fp (some c) = text_eq c.fingerprint fp

abbrev pub pending_is : Text → Option PendingUpload → Bool
pending_is fp none = false
pending_is fp (some p) = text_eq p.fingerprint fp

-- `adoptUploadState`
unfoldable pub adopt_upload_state : AliyunCertificate → AliyunCertificate → AliyunCertificate
adopt_upload_state src dst = record dst {
  status = record dst.status {
    current = src.status.current;
    history = src.status.history;
    pending_upload = src.status.pending_upload;
    cas_probed_at = src.status.cas_probed_at;
  };
}

abbrev pub with_pending : Option PendingUpload → AliyunCertificate → AliyunCertificate
with_pending p ac = record ac { status = record ac.status { pending_upload = p } }

abbrev first_or_empty : List Text → Text
first_or_empty [] = []
first_or_empty (x ∷ _) = x

-- `casDomainHint`
pub cas_domain_hint : AliyunCertificate → Text
cas_domain_hint ac = elim ac.spec.certificate_template.dns_names [
  | [] ↦ ac.spec.certificate_template.common_name
  | n ∷ _ ↦ n
]

-- `casFindHint`
unfoldable pub cas_find_hint : AliyunCertificate → Text → Text
unfolding cas_domain_hint
cas_find_hint ac preferred =
    let fallback = if is_empty preferred then cas_domain_hint ac else preferred in
    elim ac.status.pending_upload [
      | none ↦ fallback
      | some p ↦ if is_empty p.domain_hint then fallback else p.domain_hint
    ]

-- `isDuplicateName`
unfoldable pub is_duplicate_name : Error → Bool
is_duplicate_name e = elim (as_cloud e) [
  | none ↦ false
  | some c ↦
      text_eq c.code (codes "NameRepeat")
      || text_eq c.code (codes "CertNameDuplicated")
      || text_eq c.code (codes "DuplicateCertificateName")
      || text_eq c.code (codes "CertNameExisted")
]

-- the loop of `findByName`
pub id_by_name : Text → List CertSummary → Option ℕ
id_by_name name [] = none
id_by_name name (c ∷ cs) = if text_eq c.name name then some c.cert_id else id_by_name name cs

-- the write-ahead record that a round writes
pub new_pending : Bundle → ℕ → AliyunCertificate → PendingUpload
new_pending b started_at ac = record {
  fingerprint = b.fingerprint;
  cas_name = cas_name ac.name b.fingerprint;
  client_token = upload_token ac.uid b.fingerprint started_at;
  started_at = started_at;
  domain_hint = cas_domain_hint ac;
}

abbrev pub new_generation : Bundle → ℕ → CertificateGeneration
new_generation b at = record {
  fingerprint = b.fingerprint;
  cert_id = none;
  cas_name = [];
  not_before = b.leaf.not_before;
  not_after = b.leaf.not_after;
  uploaded_at = at;
}

-- A current generation with an empty fingerprint is what the probe leaves: it is no certificate.
abbrev pub archive :
    Option CertificateGeneration → List CertificateGeneration → List CertificateGeneration
archive none history = history
archive (some c) history = if is_empty c.fingerprint then history else c ∷ history

pub push_generation : CertificateGeneration → AliyunCertificate → AliyunCertificate
push_generation gen ac = record ac {
  status = record ac.status {
    history = archive ac.status.current ac.status.history;
    current = some gen;
  };
}

pub note_uploaded : ℕ → AliyunCertificate → AliyunCertificate
note_uploaded at ac = record ac {
  status = record ac.status { cas_probed_at = some at; pending_upload = none };
}

abbrev is_permanent : ErrClass → Bool
is_permanent ErrClass.permanent = true
is_permanent _ = false

abbrev key_or_raise : Res PkiError Text → Act Text
key_or_raise (ok key) = pure key
key_or_raise (err _) = raise (plain (codes "pki"))

abbrev name_of : Option PendingUpload → Text
name_of none = []
name_of (some p) = p.cas_name

module _ (env : Env) where
  -- `refreshUploadState`
  pub refresh_upload_state : Act Unit
  refresh_upload_state = do
    fresh ← perform live_get_ac env.on_live_get_ac
    set_ac (adopt_upload_state fresh)
    set_orig (adopt_upload_state fresh)

  -- `patchPendingUpload`: the patch takes a copy, so its answer is not decoded into the CR.
  pub patch_pending_upload : PendingUpload → Act Unit
  patch_pending_upload want = do
    ac ← gets (λ s. s.ac)
    let target = with_pending (some want) ac
    perform (patch_ac ac target) (λ t. env.on_patch_ac t ac target)
    set_ac (with_pending (some want))
    set_orig (with_pending (some want))

  -- the write-ahead step of `ensureUploaded`
  pub write_ahead : Bundle → Act Unit
  unfolding patch_pending_upload
  write_ahead b = do
    pending ← gets (λ s. s.ac.status.pending_upload)
    if pending_is b.fingerprint pending then pure tt else do
      started_at ← now env
      ac ← gets (λ s. s.ac)
      patch_pending_upload (new_pending b started_at ac)

  -- `findByName`
  pub find_by_name : Bundle → Text → Act ℕ
  unfolding id_by_name
  find_by_name b name = do
    let hint = first_or_empty (dns_names b)
    list ← perform (cas_find hint) (λ t. env.on_cas_find t hint)
    elim (id_by_name name list) [ none ↦ raise (plain (codes "not in CAS")) | some id ↦ pure id ]

  abbrev claimed : Error → Res Error ℕ → Act ℕ
  claimed e (err _) = raise e
  claimed e (ok id) = if id == 0 then raise e else pure id

  -- An upload that fails because the name exists claims the certificate of that name.
  pub claim : Bundle → PendingUpload → Res Error ℕ → Act ℕ
  claim b p (ok id) = pure id
  claim b p (err e) =
      if is_permanent (class_of e) && is_duplicate_name e
      then (do found ← attempt (find_by_name b p.cas_name); claimed e found)
      else raise e

  -- the call of the cloud with the stored record; the record is there, since it was just written
  pub upload_pending : Bundle → Option PendingUpload → Act ℕ
  upload_pending b none = raise (plain (codes "nil pointer"))
  upload_pending b (some p) = do
    cas_client env
    let cert = cert_pem env.crypto b
    key ← key_or_raise (key_pem env.crypto b)
    r ← attempt (
        perform (cas_upload p.cas_name cert key p.client_token)
          (λ t. env.on_cas_upload t p.cas_name cert key p.client_token))
    claim b p r

  -- the branch of `ensureUploaded` that uploads
  pub upload_generation : Bundle → ℕ → Act CertificateGeneration
  upload_generation b at = do
    write_ahead b
    pending ← gets (λ s. s.ac.status.pending_upload)
    id ← upload_pending b pending
    set_ac (note_uploaded at)
    event true (codes "Uploaded")
    pure (record (new_generation b at) { cert_id = some id; cas_name = name_of pending })

  -- `ensureUploaded`
  unfoldable pub ensure_uploaded : Bundle → Act Bool
  ensure_uploaded b = do
    current ← gets (λ s. s.ac.status.current)
    if generation_is b.fingerprint current then pure false else do
      refresh_upload_state
      current ← gets (λ s. s.ac.status.current)
      if generation_is b.fingerprint current then pure false else do
        at ← now env
        ac ← gets (λ s. s.ac)
        gen ←
            (if upload_enabled ac.spec.aliyun
              then upload_generation b at
              else pure (new_generation b at))
        set_ac (push_generation gen)
        pure true
