-- ===== src/Controller/Binding/Reconcile.antt =====
-- `Reconcile` and `reconcileBindingReady` of
-- internal/controller/aliyuncertificatebinding_controller.go. The answer is the delay after which
-- the controller wants another round.
pub mod Quiet
pub mod Sent
pub mod Record
pub mod Compared
pub mod Writes
pub mod Authority
pub mod Converges
pub mod Round
use le_to_alicloud.Prelude.{
  ℕ, Bool, true, false, not, ◌&&◌, Option, none, some, Text, text_eq, is_empty, ◌∷◌, if◌then◌else◌,
  Res, ok, err, ℤ, pos,
}
use le_to_alicloud.Api.Conditions.{Meta, Reason, is_true, is_false, issued, applied, conflict}
use le_to_alicloud.Api.Certificate.{AliyunCertificate}
use le_to_alicloud.Api.Binding.{AliyunCertificateBinding, target_key}
use le_to_alicloud.Aliyun.Errors.{Error}
use le_to_alicloud.Provider.Types.{CertMaterial}
use le_to_alicloud.Provider.Interface.{Target, ObservedState, ApplyOptions, Client, Provider}
use le_to_alicloud.Controller.Secrets.{serving_secret_name}
use le_to_alicloud.Controller.World.{is_api_not_found}
use le_to_alicloud.Controller.Certificate.Material.{bundle_of}
use le_to_alicloud.Controller.Certificate.Status.{cond_true}
use le_to_alicloud.Controller.Binding.World.{
  BindingEnv, BindingRound, BindingAct, BindingTrace, live_get_binding, list_by_target, get_secret,
  observe_target, apply_target, count_apply, pure, gets, attempt, called, on_cloud, ◌>>=◌, ◌>>◌,
  note, set_b, set_lag, update_b, get_referred,
}
use le_to_alicloud.Controller.Binding.Conflict.{arbitrate, is_deleting}
use le_to_alicloud.Controller.Binding.Material.{
  load_binding_material, check_domain_coverage, certificate_gate, cas_upload_gate,
}
use le_to_alicloud.Controller.Binding.Identity.{
  CertIdentity, capabilities_of, identity_of, ensure_https_of, target_of,
}
use le_to_alicloud.Controller.Binding.Status.{
  new_binding_round, set_binding_condition, set_binding_ready_false, aggregate_binding_ready,
  applied_lag,
}
use le_to_alicloud.Controller.Binding.Observe.{
  protocol_satisfied, settle, note_observed, handle_observe_error, fence_account, note_drift,
}
use le_to_alicloud.Controller.Binding.Apply.{
  binding_apply_result, freeze_applied, handle_apply_error,
}
use le_to_alicloud.Controller.Binding.Client.{provider_client, handle_factory_error}
use le_to_alicloud.Controller.Binding.Deletion.{reconcile_binding_delete}

-- thirty seconds
abbrev pub certificate_gate_requeue : ℤ
certificate_gate_requeue = pos 30000000000

-- `certIssued`
unfoldable pub cert_issued : Meta → AliyunCertificate → Bool
cert_issued meta ac = cond_true meta ac issued

-- the delay after `casUploadGate` held the material back
abbrev pub gate_delay : ℤ → Reason → ℤ
gate_delay drift Reason.certificate_not_ready = certificate_gate_requeue
gate_delay drift _ = drift

abbrev pub covered_or :
    (Text → Text) → AliyunCertificateBinding → Res Reason CertMaterial → Res Reason CertMaterial
covered_or to_lower b (err r) = err r
covered_or to_lower b (ok m) = elim (check_domain_coverage to_lower m b) [
  | some r ↦ err r
  | none ↦ ok m
]

abbrev pub error_of : Res Error Unit → Option Error
error_of (ok _) = none
error_of (err e) = some e

abbrev pub observed_generation_of : AliyunCertificateBinding → AliyunCertificateBinding
observed_generation_of b = record b {
  status = record b.status { observed_generation = b.generation };
}

abbrev pub options_of : AliyunCertificateBinding → ApplyOptions
options_of b = record {
  ensure_https_protocol = ensure_https_of b;
  previous_fingerprint = b.status.applied_fingerprint;
}

module _ {W : Type 0} (env : BindingEnv W) where
  -- the step of the arbitration
  pub arbitrated : BindingAct W AliyunCertificateBinding
  arbitrated s =
      let key = target_key s.b in
      (
        arbitrate (λ k. env.on_list_by_target s.trace k) s.b,
        if is_empty key then s else called (list_by_target key) s,
      )

  -- `loadBindingMaterial`, then `checkDomainCoverage`
  pub checked_material : AliyunCertificate → BindingAct W (Res Reason CertMaterial)
  checked_material ac s =
      let load = λ (name : Text). bundle_of env.crypto (env.on_get_secret s.trace name) in
      (
        ok (covered_or env.to_lower s.b (load_binding_material env.crypto load ac)),
        called (get_secret (serving_secret_name ac ac.status.secret_name)) s,
      )

  -- `Applied` is false for a reason, and the round ends.
  pub hold_back : Reason → ℤ → BindingAct W ℤ
  hold_back reason delay = do
    set_b (set_binding_condition env.meta applied is_false reason)
    set_b (aggregate_binding_ready env.meta)
    settle env delay

  -- the end of a round whose certificate is on the target
  pub finish_applied : ObservedState → CertMaterial → Bool → BindingAct W ℤ
  finish_applied obs m wrote = do
    freeze_applied env obs m wrote
    set_b (aggregate_binding_ready env.meta)
    settle env env.drift_check_interval

  -- The certificate wanted is on the target, under a protocol that is wanted.
  pub up_to_date : AliyunCertificateBinding → ObservedState → CertMaterial → Bool
  up_to_date b obs m =
      let id = identity_of (capabilities_of env.registry b) b obs m in
      text_eq id.current id.want && protocol_satisfied obs (ensure_https_of b)

  -- steps 6 to 8: the write
  pub write_target : Provider W → Client W → Target → CertMaterial → ObservedState → BindingAct W ℤ
  write_target p cl tg m obs = do
    note_drift env obs m
    b ← gets (λ s. s.b)
    name ← gets (λ s. s.provider)
    let opts = options_of b
    written ← attempt (on_cloud (apply_target tg m opts) (p.apply tg cl m opts))
    note (count_apply name (binding_apply_result (error_of written)))
    elim written [ err e ↦ handle_apply_error env e | ok _ ↦ finish_applied obs m true ]

  -- what follows an observation of the target
  pub compare_target :
      Provider W → Client W → Target → CertMaterial → ObservedState → BindingAct W ℤ
  compare_target p cl tg m obs = do
    note_observed env
    fenced ← fence_account env obs
    b ← gets (λ s. s.b)
    if fenced
        then (do set_b (aggregate_binding_ready env.meta); settle env env.drift_check_interval)
        else (if up_to_date b obs m then finish_applied obs m false else write_target p cl tg m obs)

  -- steps 4 and 5: the client and the observation
  pub visit_target : AliyunCertificate → CertMaterial → BindingAct W ℤ
  visit_target ac m = do
    made ← attempt (provider_client env (some ac))
    b ← gets (λ s. s.b)
    elim made [
      | err e ↦ handle_factory_error env e
      | ok (p, cl) ↦ elim (target_of b) [
        | err e ↦ handle_factory_error env e
        | ok tg ↦ do
          seen ← attempt (on_cloud (observe_target tg) (p.observe tg cl))
          elim seen [ err e ↦ handle_observe_error env e | ok obs ↦ compare_target p cl tg m obs ]
      ]
    ]

  -- steps 3b and 3c: the gates
  pub pass_gates : AliyunCertificate → CertMaterial → BindingAct W ℤ
  pass_gates ac m = do
    b ← gets (λ s. s.b)
    if not (certificate_gate m ac)
        then hold_back Reason.certificate_not_ready certificate_gate_requeue
        else elim (cas_upload_gate (capabilities_of env.registry b) ac m) [
          | some reason ↦ hold_back reason (gate_delay env.drift_check_interval reason)
          | none ↦ visit_target ac m
        ]

  -- step 3, and those after it: this binding may write
  pub as_winner : AliyunCertificate → BindingAct W ℤ
  as_winner ac = do
    set_b (set_binding_condition env.meta conflict is_false Reason.no_conflict)
    loaded ← checked_material ac
    elim loaded [
      | err reason ↦ do
        set_b (set_binding_ready_false env.meta reason)
        settle env env.drift_check_interval
      | ok m ↦ pass_gates ac m
    ]

  -- another binding has the target
  pub as_loser : BindingAct W ℤ
  as_loser = do
    set_b (set_binding_condition env.meta conflict is_true Reason.conflicting_binding)
    set_b (aggregate_binding_ready env.meta)
    settle env env.drift_check_interval

  -- `reconcileBindingReady`
  pub reconcile_binding_ready : AliyunCertificate → BindingAct W ℤ
  reconcile_binding_ready ac = do
    winner ← arbitrated
    b ← gets (λ s. s.b)
    if not (text_eq winner.uid b.uid) then as_loser else as_winner ac

  -- the certificate is there, or is not, or is not issued
  pub with_certificate : Option AliyunCertificate → BindingAct W ℤ
  with_certificate none = do
    set_b (set_binding_ready_false env.meta Reason.certificate_not_found)
    settle env env.drift_check_interval
  with_certificate (some ac) =
      if not (cert_issued env.meta ac)
      then (do
        set_b (set_binding_ready_false env.meta Reason.certificate_not_ready)
        settle env env.drift_check_interval)
      else reconcile_binding_ready ac

  -- the finalizer is added; the round goes on with the object that the server answered
  pub ensure_finalizer : BindingAct W Unit
  ensure_finalizer = do
    b ← gets (λ s. s.b)
    if b.finalizer then pure tt else do
      set_b (λ b. record b { finalizer = true })
      update_b env
      (λ s. (ok tt, new_binding_round s.b s.trace s.cloud))

  -- `Reconcile` of a binding that is not being deleted
  unfoldable pub reconcile_live : BindingAct W ℤ
  reconcile_live = do
    ensure_finalizer
    set_b observed_generation_of
    ac ← get_referred env
    lag ← applied_lag env ac
    set_lag lag
    with_certificate ac

  -- `Reconcile` on the binding that the API server answered
  pub reconcile_found : BindingAct W ℤ
  reconcile_found = do
    b ← gets (λ s. s.b)
    if is_deleting b then reconcile_binding_delete env else reconcile_live

  -- `Reconcile`; the trace holds the calls of earlier rounds
  pub reconcile_binding : BindingTrace → W → Res Error ℤ × (BindingTrace × W)
  reconcile_binding trace cloud =
      let trace' = live_get_binding ∷ trace in
      elim (env.on_live_get_binding trace) [
        | err e ↦ (if is_api_not_found e then ok (pos 0) else err e, (trace', cloud))
        | ok b ↦
            let (r, s) = reconcile_found (new_binding_round b trace' cloud) in
            (r, (s.trace, s.cloud))
      ]
