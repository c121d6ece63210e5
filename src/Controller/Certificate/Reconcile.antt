-- ===== src/Controller/Certificate/Reconcile.antt =====
-- `Reconcile` of internal/controller/aliyuncertificate_controller.go, and what it calls. The answer
-- is the delay after which it wants another round.
pub mod Guard
pub mod Quiet
pub mod Steps
use le_to_alicloud.Prelude.{
  ℕ, Bool, true, false, ◌&&◌, ◌||◌, not, Option, none, some, List, [], ◌∷◌, Text, codes, is_empty,
  is_some, text_eq, has_prefix, if◌then◌else◌, Res, ok, err, ℤ, pos, ltb_ℤ, sub_ℕ,
}
use le_to_alicloud.Api.Conditions.{
  Reason, ready, issued, uploaded, issuer_default_diverged, is_true, is_false,
}
use le_to_alicloud.Api.Certificate.{AliyunCertificate, IssuerRef}
use le_to_alicloud.Aliyun.Errors.{
  Error, wrapped, ErrClass, CloudError, as_cloud, as_credentials, class_of,
}
use le_to_alicloud.Pki.Bundle.{Bundle, dns_names}
use le_to_alicloud.Controller.Issuer.{
  IssuerSource, from_status, resolve_issuer_ref, issuer_ref_equal, defaults_ref,
}
use le_to_alicloud.Controller.Secrets.{
  secret_name_for, cert_manager_name_for, secret_name_guard_holding, secret_owned_by_us,
  desired_certificate_spec,
}
use le_to_alicloud.Controller.World.{
  Env, Call, get_cm, sync_cm, get_secret, update_ac, CmCertificate, OperationResult, result_created,
  Round, Act, pure, raise, gets, attempt, perform, ◌>>=◌, ◌>>◌, set_ac, set_orig, event, now,
  patch_status, is_api_not_found,
}
use le_to_alicloud.Controller.Certificate.Status.{
  set_condition, cond_true, set_uploaded_condition, aggregate_ready, mirror_issuance, cert_ready,
  cert_issuing_since,
}
use le_to_alicloud.Controller.Certificate.Upload.{ensure_uploaded}
use le_to_alicloud.Controller.Certificate.Retention.{reclaim_old_generations}
use le_to_alicloud.Controller.Certificate.Deletion.{reconcile_delete}
use le_to_alicloud.Controller.Certificate.Material.{load_material}
use le_to_alicloud.Controller.Certificate.Probe.{probe_cas, note_probe_failure}

-- five minutes
abbrev pub credentials_retry : ℤ
credentials_retry = pos 300000000000

abbrev first_or_empty : List Text → Text
first_or_empty [] = []
first_or_empty (x ∷ _) = x

abbrev is_throttling : Option CloudError → Bool
is_throttling none = false
is_throttling (some c) = has_prefix c.code (codes "Throttling")

-- `IssuerSourceStatus` with a default that differs from the pinned issuer
unfoldable pub issuer_diverged : Option IssuerRef → IssuerSource → IssuerRef → Bool
issuer_diverged (some d) from_status issuer = not (issuer_ref_equal d issuer)
issuer_diverged _ _ issuer = false

abbrev pub issuer_of : Option CmCertificate → Option IssuerRef
issuer_of none = none
issuer_of (some cert) = some cert.spec.issuer_ref

-- `existing == nil || existing.Spec.SecretName != secretNameFor(ac)`
unfoldable pub renames_secret : Option CmCertificate → AliyunCertificate → Bool
renames_secret none ac = true
renames_secret (some cert) ac = not (text_eq cert.spec.secret_name (secret_name_for ac))

abbrev pub is_created : OperationResult → Bool
is_created result_created = true
is_created _ = false

-- `status.certManagerCertificateName` and `status.secretName` of the Certificate in service
abbrev pub serving : CmCertificate → AliyunCertificate → AliyunCertificate
serving cert ac = record ac {
  status = record ac.status {
    cert_manager_certificate_name = cert.name;
    secret_name = cert.spec.secret_name;
  };
}

module _ (env : Env) where
  abbrev pub resync : Act (Option ℤ)
  resync = patch_status env >> pure (some env.resync_interval)

  abbrev to_uploaded_false : Reason → Act Unit
  to_uploaded_false r =
      set_ac (λ ac. aggregate_ready env.meta (set_condition env.meta uploaded is_false r ac))

  -- the branches of `handleCloudError` by the class of the error
  unfoldable pub by_class : ErrClass → Error → Act (Option ℤ)
  by_class ErrClass.retryable e = do
    to_uploaded_false
        (if is_throttling (as_cloud e) then Reason.throttled else Reason.upload_failed)
    patch_status env
    raise e
  by_class ErrClass.auth e = do
    to_uploaded_false Reason.credentials_invalid
    patch_status env
    pure (some credentials_retry)
  by_class _ e = do
    set_ac (set_condition env.meta uploaded is_false Reason.upload_failed)
    event false (codes "UploadFailed")
    set_ac (aggregate_ready env.meta)
    resync

  -- `handleCloudError`
  unfoldable pub handle_cloud_error : Error → Act (Option ℤ)
  handle_cloud_error e = elim (as_credentials e) [
    | some r ↦ do to_uploaded_false r; patch_status env; pure (some credentials_retry)
    | none ↦ by_class (class_of e) e
  ]

  -- `handleNonFatalCloudError`, with the reason of its event
  unfoldable pub handle_non_fatal_cloud_error : Error → Text → Act (Option ℤ)
  handle_non_fatal_cloud_error e reason = do
    event false reason
    set_ac (aggregate_ready env.meta)
    patch_status env
    elim (class_of e) [ ErrClass.retryable ↦ raise e | _ ↦ pure (some env.resync_interval) ]

  -- `handleReclaimError`
  abbrev pub handle_reclaim_error : Error → Act (Option ℤ)
  handle_reclaim_error e = handle_non_fatal_cloud_error e (codes "ReclaimFailed")

  -- `detectIssuerDivergence`
  unfoldable pub detect_issuer_divergence : IssuerSource → IssuerRef → Act Unit
  detect_issuer_divergence source issuer = do
    ac ← gets (λ s. s.ac)
    let was = cond_true env.meta ac issuer_default_diverged
    let diverged = issuer_diverged (defaults_ref env.issuer_defaults) source issuer
    if not diverged
        then set_ac (set_condition env.meta issuer_default_diverged is_false Reason.is_ready)
        else do
          set_ac (set_condition env.meta issuer_default_diverged is_true Reason.diverged)
          if was then pure tt else event false (codes "IssuerDefaultDiverged")

  abbrev probed : Res Error Bool → Act Bool
  probed (ok missing) = pure missing
  probed (err _) = note_probe_failure env >> pure false

  -- the result of a probe is stored before the upload reads the CR again
  abbrev store_probe : Bool → Act Unit
  store_probe missing =
      if not missing
      then pure tt
      else do patch_status env; ac ← gets (λ s. s.ac); set_orig (λ _. ac)

  -- the steps of `reconcileIssued` after the upload
  unfoldable pub after_upload : Res Error Bool → Act (Option ℤ)
  after_upload (err e) = handle_cloud_error e
  after_upload (ok _) = do
    set_ac (set_uploaded_condition env.meta)
    reclaimed ← attempt (reclaim_old_generations env)
    elim reclaimed [
      | err e ↦ handle_reclaim_error e
      | ok _ ↦ do set_ac (aggregate_ready env.meta); resync
    ]

  -- the steps of `reconcileIssued` with valid material
  unfoldable pub with_bundle : Bool → Bundle → Act (Option ℤ)
  with_bundle stalled b = do
    (if stalled then pure tt else set_ac (set_condition env.meta issued is_true Reason.is_ready))
    r ← attempt (probe_cas env (first_or_empty (dns_names b)))
    missing ← probed r
    store_probe missing
    changed ← attempt (ensure_uploaded env b)
    after_upload changed

  -- `reconcileIssued` with material that is refused
  unfoldable pub without_bundle : Reason → Act (Option ℤ)
  without_bundle r = do
    set_ac (set_condition env.meta issued is_false r)
    elim r [
      | Reason.self_signed_during_issuance ↦ event false (codes "SelfSignedDuringIssuance")
      | _ ↦ pure tt
    ]
    set_ac (aggregate_ready env.meta)
    resync

  -- `reconcileIssued`
  unfoldable pub reconcile_issued : CmCertificate → Bool → Act (Option ℤ)
  reconcile_issued cert stalled = do
    loaded ← load_material env cert
    elim loaded [ err r ↦ without_bundle r | ok b ↦ with_bundle stalled b ]
