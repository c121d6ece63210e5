-- ===== src/Controller/Certificate/Deletion.antt =====
-- internal/controller/deletion.go, and `shouldAbandonCleanup` of binding_deletion.go. The answer of
-- a reconcile is the delay after which it wants another.
pub mod Cleanup
pub mod Order
use le_to_alicloud.Prelude.{
  ℕ, Bool, true, false, not, ◌&&◌, ◌||◌, Option, none, some, List, [], ◌∷◌, ◌++◌, Text, codes,
  text_eq, is_some, if◌then◌else◌, Res, ok, err, ℤ, pos, ltb_ℤ, sub_ℕ,
}
use le_to_alicloud.Naming.{client_token, delete_token}
use le_to_alicloud.Api.Conditions.{Reason, ready, is_false}
use le_to_alicloud.Api.Certificate.{AliyunCertificate, CertificateGeneration, PendingUpload}
use le_to_alicloud.Api.Binding.{AliyunCertificateBinding}
use le_to_alicloud.Aliyun.Errors.{Error}
use le_to_alicloud.Controller.Secrets.{
  cert_manager_name_for, serving_secret_name, secret_owned_by_us, Secret,
}
use le_to_alicloud.Controller.World.{
  Env, Call, cas_delete, cas_find, get_cm, delete_cm, get_secret, delete_secret, update_ac, Round,
  Act, pure, raise, gets, attempt, perform, ◌>>=◌, ◌>>◌, set_ac, set_orig, event, now, patch_status,
  cas_client, CmCertificate, is_api_not_found, unless_api_not_found,
}
use le_to_alicloud.Controller.Certificate.Status.{set_condition}
use le_to_alicloud.Controller.Certificate.Upload.{with_pending, cas_find_hint, id_by_name}
use le_to_alicloud.Controller.Certificate.Retention.{
  with_history, unless_not_found, live_bindings_for,
}

-- `activeBindingNames`
unfoldable pub active_binding_names : List AliyunCertificateBinding → List Text
active_binding_names [] = []
active_binding_names (b ∷ bs) =
    if not (is_some b.deletion_timestamp)
    then b.name ∷ active_binding_names bs
    else active_binding_names bs

abbrev pub id_then : Option ℕ → List ℕ → List ℕ
id_then none ids = ids
id_then (some id) ids = id ∷ ids

abbrev pub history_ids : List CertificateGeneration → List ℕ
history_ids [] = []
history_ids (g ∷ gs) = id_then g.cert_id (history_ids gs)

-- `remainingCertIDs`
unfoldable pub remaining_cert_ids : AliyunCertificate → List ℕ
remaining_cert_ids ac = elim ac.status.current [
  | none ↦ history_ids ac.status.history
  | some g ↦ id_then g.cert_id (history_ids ac.status.history)
]

-- `shouldAbandonCleanup`
unfoldable pub should_abandon_cleanup : Text → ℤ → ℤ → Bool
should_abandon_cleanup policy elapsed grace =
    not (text_eq policy (codes "Block")) && not (ltb_ℤ elapsed grace)

abbrev pub with_current : Option CertificateGeneration → AliyunCertificate → AliyunCertificate
with_current c ac = record ac { status = record ac.status { current = c } }

abbrev pub without_id : CertificateGeneration → CertificateGeneration
without_id g = record g { cert_id = none }

-- `CleanupStartedAt`, which is set when this is read
abbrev started_or : ℕ → Option ℕ → ℕ
started_or at none = at
started_or at (some t) = t

abbrev is_nil : {A : Type 0} → List A → Bool
is_nil [] = true
is_nil (_ ∷ _) = false

module _ (env : Env) where
  -- one deletion of a certificate, as `cleanupCAS` and `cleanupPendingUpload` make it
  unfoldable pub delete_certificate : ℕ → Text → Act Unit
  delete_certificate id upload_token = do
    let token = delete_token upload_token
    r ← attempt (perform (cas_delete id token) (λ t. env.on_cas_delete t id token))
    unless_not_found r

  -- `del` of `cleanupCAS`; the generation without its certId is the result
  unfoldable pub delete_generation : CertificateGeneration → Act CertificateGeneration
  delete_generation g = elim g.cert_id [
    | none ↦ pure g
    | some id ↦ do
      ac ← gets (λ s. s.ac)
      delete_certificate id (client_token ac.uid g.fingerprint)
      pure (without_id g)
  ]

  -- the loop of `cleanupCAS` over the history, of which a part is done
  unfoldable pub cleanup_history :
      List CertificateGeneration → List CertificateGeneration → Act Unit
  cleanup_history done [] = pure tt
  cleanup_history done (g ∷ gs) = do
    g' ← delete_generation g
    set_ac (with_history (done ++ g' ∷ gs))
    cleanup_history (done ++ g' ∷ []) gs

  unfoldable pub cleanup_current : Option CertificateGeneration → Act Unit
  cleanup_current none = pure tt
  cleanup_current (some g) = do g' ← delete_generation g; set_ac (with_current (some g'))

  -- `cleanupPendingUpload`
  unfoldable pub cleanup_pending_upload : Option PendingUpload → Act Unit
  cleanup_pending_upload none = pure tt
  cleanup_pending_upload (some p) = do
    ac ← gets (λ s. s.ac)
    let hint = cas_find_hint ac []
    list ← perform (cas_find hint) (λ t. env.on_cas_find t hint)
    elim (id_by_name p.cas_name list) [
      | none ↦ pure tt
      | some id ↦ delete_certificate id p.client_token
    ]
    set_ac (with_pending none)

  -- `cleanupCAS`
  unfoldable pub cleanup_cas : Act Unit
  cleanup_cas = do
    ac ← gets (λ s. s.ac)
    if is_nil (remaining_cert_ids ac) && not (is_some ac.status.pending_upload) then pure tt else do
      cas_client env
      cleanup_history [] ac.status.history
      cleanup_current ac.status.current
      cleanup_pending_upload ac.status.pending_upload

  -- the start of the grace period
  unfoldable pub start_cleanup : Act Unit
  start_cleanup = do
    ac ← gets (λ s. s.ac)
    if is_some ac.status.cleanup_started_at then pure tt else do
      at ← now env
      set_ac (λ ac. record ac { status = record ac.status { cleanup_started_at = some at } })
      patch_status env
      ac ← gets (λ s. s.ac)
      set_orig (λ _. ac)

  -- what follows a failed cleanup: another try, or the cleanup is given up
  pub retry_or_abandon : Error → Act Unit
  retry_or_abandon e = do
    at ← now env
    ac ← gets (λ s. s.ac)
    let elapsed = sub_ℕ at (started_or at ac.status.cleanup_started_at)
    let abandon = should_abandon_cleanup env.cleanup_failure_policy elapsed env.cleanup_grace_period
    if abandon then event false (codes "CleanupAbandoned") else do
      set_ac (set_condition env.meta ready is_false Reason.cleanup_failed)
      patch_status env
      raise e

  abbrev pub settle : Res Error Unit → Act Unit
  settle (ok _) = pure tt
  settle (err e) = retry_or_abandon e

  -- Step d: a Secret that belongs to another Certificate stays, and the answer is true.
  unfoldable pub remove_secret : Res Error Secret → Act Bool
  remove_secret (ok s) = do
    ac ← gets (λ r. r.ac)
    if not (secret_owned_by_us s ac) then pure true else do
      r ← attempt (perform (delete_secret s.name) (λ t. env.on_delete_secret t s.name))
      unless_api_not_found r
      pure false
  remove_secret (err e) = if is_api_not_found e then pure false else raise e

  -- the event of a skipped Secret, only in the round that did remove the finalizer
  abbrev after_update : Bool → Res Error AliyunCertificate → Act Unit
  after_update skipped (ok ac) = do
    set_ac (λ _. ac)
    if skipped then event false (codes "SecretNameConflict") else pure tt
  after_update skipped (err e) = if is_api_not_found e then pure tt else raise e

  -- steps d and e
  unfoldable pub remove_finalizer : Act (Option ℤ)
  remove_finalizer = do
    ac ← gets (λ s. s.ac)
    let name = serving_secret_name ac ac.status.secret_name
    found ← attempt (perform (get_secret name) (λ t. env.on_get_secret t name))
    skipped ← remove_secret found
    set_ac (λ ac. record ac { finalizer = false })
    ac ← gets (λ s. s.ac)
    updated ← attempt (perform update_ac (λ t. env.on_update_ac t ac))
    after_update skipped updated
    pure none

  -- step c, and what follows it when the Certificate is gone
  unfoldable pub remove_certificate : Res Error CmCertificate → Act (Option ℤ)
  remove_certificate (ok cert) = do
    (if is_some cert.deletion_timestamp then pure tt else do
      r ← attempt (perform (delete_cm cert.name) (λ t. env.on_delete_cm t cert.name))
      unless_api_not_found r)
    pure (some (pos 2000000000))
  remove_certificate (err e) = if is_api_not_found e then remove_finalizer else raise e

  -- steps b to e
  unfoldable pub clean_up : Act (Option ℤ)
  clean_up = do
    start_cleanup
    r ← attempt cleanup_cas
    settle r
    patch_status env
    ac ← gets (λ s. s.ac)
    let name = cert_manager_name_for ac
    found ← attempt (perform (get_cm name) (λ t. env.on_get_cm t name))
    remove_certificate found

  -- `reconcileDelete`
  unfoldable pub reconcile_delete : Act (Option ℤ)
  reconcile_delete = do
    ac ← gets (λ s. s.ac)
    if not ac.finalizer then pure none else do
      bindings ← live_bindings_for env
      if is_nil (active_binding_names bindings) then clean_up else do
        set_ac (set_condition env.meta ready is_false Reason.deletion_blocked)
        event false (codes "DeletionBlockedByBindings")
        patch_status env
        pure none
