-- ===== src/Controller/Binding/Deletion.antt =====
-- internal/controller/binding_deletion.go. The answer of a reconcile is the delay after which it
-- wants another.
pub mod Ends
pub mod Ours
pub mod Quiet
use le_to_alicloud.Prelude.{
  ℕ, Bool, true, false, not, Option, none, some, [], Text, text_eq, is_empty, if◌then◌else◌, Res,
  ok, err, ℤ, pos, sub_ℕ,
}
use le_to_alicloud.Api.Conditions.{Reason}
use le_to_alicloud.Api.Certificate.{AliyunCertificate}
use le_to_alicloud.Api.Binding.{AliyunCertificateBinding, DeletionPolicy, orphan, unbind}
use le_to_alicloud.Aliyun.Errors.{Error, ProviderCode, ProviderError, as_provider}
use le_to_alicloud.Provider.Types.{CertMaterial}
use le_to_alicloud.Provider.Errors.{is_target_not_found}
use le_to_alicloud.Provider.Interface.{Target, ObservedState, Client, Provider}
use le_to_alicloud.Controller.World.{is_api_not_found}
use le_to_alicloud.Controller.Certificate.Deletion.{should_abandon_cleanup}
use le_to_alicloud.Controller.Binding.World.{
  BindingEnv, BindingRound, BindingAct, observe_target, cleanup_target, event_warning,
  count_abandoned, pure, raise, gets, attempt, on_cloud, ◌>>=◌, ◌>>◌, note, set_b, set_orig, now,
  patch_binding_status, update_b, get_referred,
}
use le_to_alicloud.Controller.Binding.Identity.{
  CertIdentity, capabilities_of, identity_of, target_of,
}
use le_to_alicloud.Controller.Binding.Status.{
  target_region, set_binding_ready_false, record_binding_readiness, clear_binding_metrics,
}
use le_to_alicloud.Controller.Binding.Observe.{account_differs}
use le_to_alicloud.Controller.Binding.Client.{provider_client}

-- `provider.CertMaterial{}`
abbrev pub no_material : CertMaterial
no_material = record {
  fingerprint = [];
  cert_pem = [];
  key_pem = [];
  cert_id = none;
  cas_name = [];
  not_after = 0;
  dns_names = [];
  cas_region = [];
}

abbrev code_of : Option ProviderError → ProviderCode
code_of none = ProviderCode.permanent
code_of (some p) = p.code

-- `providerErrClass`
unfoldable pub provider_err_class : Error → ProviderCode
provider_err_class e = code_of (as_provider e)

-- `CleanupStartedAt`, which is set when this is read
abbrev started_or : ℕ → Option ℕ → ℕ
started_or at none = at
started_or at (some t) = t

abbrev pub without_finalizer : AliyunCertificateBinding → AliyunCertificateBinding
without_finalizer b = record b { finalizer = false }

-- The policy asks for a clean up, and something was applied.
abbrev pub wants_unbind : AliyunCertificateBinding → Bool
wants_unbind b = elim b.spec.deletion_policy [
  | orphan ↦ false
  | unbind ↦ not (is_empty b.status.applied_fingerprint)
]

module _ {W : Type 0} (env : BindingEnv W) where
  -- The target is in the account of the binding and has the certificate that the binding applied.
  pub holds_ours : AliyunCertificateBinding → ObservedState → Bool
  holds_ours b obs =
      let id = identity_of (capabilities_of env.registry b) b obs no_material in
      if account_differs b obs then false else text_eq id.current id.applied

  -- `unbindTarget` after the client is made
  pub unbind_observed : Provider W → Client W → Target → BindingAct W Unit
  unbind_observed p cl tg = do
    b ← gets (λ s. s.b)
    seen ← attempt (on_cloud (observe_target tg) (p.observe tg cl))
    elim seen [
      | err e ↦ if is_target_not_found (as_provider e) then pure tt else raise e
      | ok obs ↦
          if holds_ours b obs
          then on_cloud (cleanup_target tg) (p.cleanup tg cl unbind)
          else pure tt
    ]

  -- `unbindTarget`
  pub unbind_target : BindingAct W Unit
  unbind_target = do
    ac ← get_referred env
    made ← provider_client env ac
    b ← gets (λ s. s.b)
    let (p, cl) = made
    elim (target_of b) [ err e ↦ raise e | ok tg ↦ unbind_observed p cl tg ]

  -- `client.IgnoreNotFound` of the update
  abbrev pub ignore_not_found : Res Error Unit → BindingAct W Unit
  ignore_not_found (ok _) = pure tt
  ignore_not_found (err e) = if is_api_not_found e then pure tt else raise e

  -- `finishBindingDeletion`
  pub finish_binding_deletion : BindingAct W ℤ
  finish_binding_deletion = do
    set_b without_finalizer
    r ← attempt (update_b env)
    ignore_not_found r
    clear_binding_metrics env
    pure (pos 0)

  -- the start of the grace period
  pub start_binding_cleanup : BindingAct W Unit
  start_binding_cleanup = do
    b ← gets (λ s. s.b)
    elim b.status.cleanup_started_at [
      | some _ ↦ pure tt
      | none ↦ do
        at ← now env
        set_b (λ b. record b { status = record b.status { cleanup_started_at = some at } })
        patch_binding_status env
        b ← gets (λ s. s.b)
        set_orig b
    ]

  -- what follows a failure to unbind: another try, or the cleanup is given up
  pub retry_or_abandon_binding : Error → BindingAct W ℤ
  retry_or_abandon_binding e = do
    at ← now env
    b ← gets (λ s. s.b)
    let elapsed = sub_ℕ at (started_or at b.status.cleanup_started_at)
    if should_abandon_cleanup env.cleanup_failure_policy elapsed env.cleanup_grace_period
        then (do
          note (event_warning Reason.cleanup_abandoned)
          note (count_abandoned (target_region b) (provider_err_class e))
          finish_binding_deletion)
        else (do
          set_b (set_binding_ready_false env.meta Reason.cleanup_failed)
          patch_binding_status env
          record_binding_readiness env
          raise e)

  -- the clean up of the policy `Unbind`
  pub unbind_and_finish : BindingAct W ℤ
  unbind_and_finish = do
    start_binding_cleanup
    r ← attempt unbind_target
    elim r [ ok _ ↦ finish_binding_deletion | err e ↦ retry_or_abandon_binding e ]

  -- `reconcileBindingDelete`
  pub reconcile_binding_delete : BindingAct W ℤ
  reconcile_binding_delete = do
    b ← gets (λ s. s.b)
    if not b.finalizer
        then pure (pos 0)
        else do if wants_unbind b then unbind_and_finish else finish_binding_deletion
