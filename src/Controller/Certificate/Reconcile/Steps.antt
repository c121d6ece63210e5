-- ===== src/Controller/Certificate/Reconcile/Steps.antt =====
-- `Reconcile` of internal/controller/aliyuncertificate_controller.go, on the CR that was read.
use le_to_alicloud.Prelude.{
  ℕ, Bool, true, false, ◌&&◌, ◌||◌, not, Option, none, some, codes, is_empty, is_some,
  if◌then◌else◌, Res, ok, err, ℤ, ltb_ℤ, sub_ℕ,
}
use le_to_alicloud.Api.Conditions.{Reason, ready, issued, is_false}
use le_to_alicloud.Api.Certificate.{IssuerRef}
use le_to_alicloud.Aliyun.Errors.{Error, wrapped}
use le_to_alicloud.Controller.Issuer.{IssuerSource, resolve_issuer_ref}
use le_to_alicloud.Controller.Secrets.{
  Secret, secret_name_for, cert_manager_name_for, secret_name_guard_holding, secret_owned_by_us,
  desired_certificate_spec,
}
use le_to_alicloud.Controller.World.{
  Env, get_cm, sync_cm, get_secret, update_ac, CmCertificate, OperationResult, Act, pure, raise,
  gets, attempt, perform, ◌>>=◌, ◌>>◌, set_ac, set_orig, event, now, patch_status, is_api_not_found,
}
use le_to_alicloud.Controller.Certificate.Status.{
  set_condition, aggregate_ready, mirror_issuance, cert_ready, cert_issuing_since,
}
use le_to_alicloud.Controller.Certificate.Deletion.{reconcile_delete}
use le_to_alicloud.Controller.Certificate.Reconcile.{
  resync, issuer_of, renames_secret, is_created, serving, detect_issuer_divergence,
  reconcile_issued,
}

module _ (env : Env) where
  abbrev occupied : Res Error Secret → Act Bool
  occupied (ok s) = gets (λ r. not (secret_owned_by_us s r.ac))
  occupied (err e) = if is_api_not_found e then pure false else raise e

  -- `secretNameConflict`
  unfoldable pub secret_name_conflict : Act Bool
  secret_name_conflict = do
    ac ← gets (λ s. s.ac)
    let name = secret_name_for ac
    found ← attempt (perform (get_secret name) (λ t. env.on_get_secret t name))
    occupied found

  abbrev existing_of : Res Error CmCertificate → Act (Option CmCertificate)
  existing_of (ok cert) = pure (some cert)
  existing_of (err e) = if is_api_not_found e then pure none else raise e

  abbrev stalled_since : Option ℕ → Act Bool
  stalled_since none = pure false
  stalled_since (some since) = do
    at ← now env
    let stalled = ltb_ℤ env.issuance_stall_threshold (sub_ℕ at since)
    if not stalled then pure false else do
      now env
      set_ac (set_condition env.meta issued is_false Reason.issuance_stalled)
      event false (codes "IssuanceStalled")
      pure true

  -- step 4: a stalled issuance is noted
  unfoldable pub note_stall : CmCertificate → Act Bool
  note_stall cert =
      let (issuing, since) = cert_issuing_since cert in
      if issuing then stalled_since since else pure false

  -- a Certificate that is not ready
  unfoldable pub wait_for_certificate : Bool → Act (Option ℤ)
  wait_for_certificate stalled = do
    (if stalled
        then pure tt
        else set_ac (set_condition env.meta issued is_false Reason.certificate_not_ready))
    set_ac (aggregate_ready env.meta)
    ac ← gets (λ s. s.ac)
    patch_status env
    pure (if stalled || secret_name_guard_holding ac then some env.resync_interval else none)

  -- step 3: the Certificate is made what the CR asks for, unless its Secret is another's
  unfoldable pub synced : CmCertificate → Act (Option ℤ)
  synced cert = do
    set_ac (serving cert)
    set_ac (mirror_issuance cert)
    stalled ← note_stall cert
    if not (cert_ready cert)
        then wait_for_certificate stalled
        else reconcile_issued env cert stalled

  abbrev note_recreated : OperationResult → Act Unit
  note_recreated op = do
    ac ← gets (λ s. s.ac)
    if is_created op && not (is_empty ac.status.cert_manager_certificate_name)
        then event false (codes "CertificateRecreated")
        else pure tt

  unfoldable pub sync_certificate : IssuerRef → Act (Option ℤ)
  sync_certificate issuer = do
    ac ← gets (λ s. s.ac)
    let name = cert_manager_name_for ac
    let spec = desired_certificate_spec ac issuer
    r ← attempt (perform (sync_cm name) (λ t. env.on_sync_cm t name spec))
    elim r [ err e ↦ raise (wrapped e) | ok (op, cert) ↦ note_recreated op >> synced cert ]

  -- step 2: the guard on the name of the Secret
  unfoldable pub guarded : Option CmCertificate → IssuerRef → Act (Option ℤ)
  guarded existing issuer = do
    ac ← gets (λ s. s.ac)
    conflict ← (if renames_secret existing ac then secret_name_conflict else pure false)
    if not conflict then sync_certificate issuer else elim existing [
      | none ↦ do
        set_ac (set_condition env.meta ready is_false Reason.secret_name_conflict)
        resync env
      | some cert ↦ synced cert
    ]

  -- step 1: the issuer
  unfoldable pub with_issuer :
      Option CmCertificate → Option (IssuerRef × IssuerSource) → Act (Option ℤ)
  with_issuer existing none = do
    set_ac (set_condition env.meta ready is_false Reason.no_issuer)
    patch_status env
    pure none
  with_issuer existing (some (issuer, source)) = do
    set_ac (λ ac. record ac { status = record ac.status { effective_issuer_ref = some issuer } })
    detect_issuer_divergence env source issuer
    guarded existing issuer

  -- the steps for a CR that has its finalizer
  unfoldable pub reconcile_live : Act (Option ℤ)
  reconcile_live = do
    set_ac (λ ac. record ac { status = record ac.status { observed_generation = ac.generation } })
    ac ← gets (λ s. s.ac)
    let name = cert_manager_name_for ac
    r ← attempt (perform (get_cm name) (λ t. env.on_get_cm t name))
    existing ← existing_of r
    with_issuer existing (
        resolve_issuer_ref ac.spec.certificate_template.issuer_ref ac.status.effective_issuer_ref
          (issuer_of existing) env.issuer_defaults)

  -- `r.Update(ctx, ac)` with the finalizer added
  unfoldable pub add_finalizer : Act (Option ℤ)
  add_finalizer = do
    set_ac (λ ac. record ac { finalizer = true })
    ac ← gets (λ s. s.ac)
    updated ← perform update_ac (λ t. env.on_update_ac t ac)
    set_ac (λ _. updated)
    pure none

  -- `Reconcile`
  unfoldable pub reconcile : Act (Option ℤ)
  reconcile = do
    ac ← gets (λ s. s.ac)
    set_orig (λ _. ac)
    if is_some ac.deletion_timestamp
        then reconcile_delete env
        else (if not ac.finalizer then add_finalizer else reconcile_live)
