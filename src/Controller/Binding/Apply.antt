-- ===== src/Controller/Binding/Apply.antt =====
-- internal/controller/binding_apply.go: what follows a write to the target.
use le_to_alicloud.Prelude.{
  Bool, true, false, not, Option, none, some, [], is_empty, ◌||◌, if◌then◌else◌, ℤ, pos,
}
use le_to_alicloud.Api.Conditions.{Reason, is_true, is_false, applied}
use le_to_alicloud.Api.Binding.{AliyunCertificateBinding}
use le_to_alicloud.Aliyun.Errors.{Error, ProviderCode, ProviderError, as_provider}
use le_to_alicloud.Provider.Types.{CertMaterial, Capabilities, cas_cert_ref}
use le_to_alicloud.Provider.Interface.{ObservedState}
use le_to_alicloud.Controller.Binding.World.{
  BindingEnv, BindingAct, ApplyResult, result_success, result_throttled, result_error, event_normal,
  pure, raise, gets, ◌>>=◌, ◌>>◌, note, set_b, set_lag, now,
}
use le_to_alicloud.Controller.Binding.Identity.{capabilities_of}
use le_to_alicloud.Controller.Binding.Status.{
  set_binding_condition, binding_cond_true, aggregate_binding_ready, patch_binding_and_metrics,
}
use le_to_alicloud.Controller.Binding.Observe.{credentials_requeue, event_on_reason_change}

abbrev result_of : Option ProviderError → ApplyResult
result_of none = result_error
result_of (some p) = elim p.code [ ProviderCode.throttled ↦ result_throttled | _ ↦ result_error ]

-- `bindingApplyResult`
unfoldable pub binding_apply_result : Option Error → ApplyResult
binding_apply_result none = result_success
binding_apply_result (some e) = result_of (as_provider e)

-- the reason of `handleApplyError`
unfoldable pub apply_failure_reason : Option ProviderError → Reason
apply_failure_reason none = Reason.apply_failed
apply_failure_reason (some p) = p.reason

-- what `freezeApplied` records of the certificate that is on the target
unfoldable pub record_applied :
    Capabilities → CertMaterial → AliyunCertificateBinding → AliyunCertificateBinding
record_applied caps m b = record b {
  status = record b.status {
    applied_fingerprint = m.fingerprint;
    applied_cert_ref =
        if caps.references_cert_by_id then cas_cert_ref m else b.status.applied_cert_ref;
    drifted_fingerprint = [];
    drifted_cert_ref = [];
  };
}

-- The account is recorded once, and only from an observation that names one.
unfoldable pub bind_account : ObservedState → AliyunCertificateBinding → AliyunCertificateBinding
bind_account obs b =
    if not (is_empty b.status.bound_account_id) || is_empty obs.account_id
    then b
    else record b { status = record b.status { bound_account_id = obs.account_id } }

module _ {W : Type 0} (env : BindingEnv W) where
  -- `setApplied`
  unfoldable pub set_applied : BindingAct W Unit
  set_applied = do
    b ← gets (λ s. s.b)
    set_b (set_binding_condition env.meta applied is_true Reason.was_applied)
    if binding_cond_true env.meta b applied then pure tt else note (event_normal Reason.was_applied)

  -- `b.Status.LastAppliedTime` of `freezeApplied`
  unfoldable pub note_written : Bool → BindingAct W Unit
  note_written false = pure tt
  note_written true = do
    at ← now env
    set_b (λ b. record b { status = record b.status { last_applied_time = some at } })

  -- `freezeApplied`
  unfoldable pub freeze_applied : ObservedState → CertMaterial → Bool → BindingAct W Unit
  unfolding note_written
  freeze_applied obs m wrote = do
    b ← gets (λ s. s.b)
    set_b (record_applied (capabilities_of env.registry b) m)
    note_written wrote
    set_b (bind_account obs)
    set_lag (pos 0)
    set_applied

  -- the answer of `handleApplyError` after the patch
  abbrev pub apply_retry : Error → Option ProviderError → BindingAct W ℤ
  apply_retry e none = pure env.drift_check_interval
  apply_retry e (some p) = if p.retryable then raise e else elim p.code [
    | ProviderCode.auth ↦ pure credentials_requeue
    | _ ↦ pure env.drift_check_interval
  ]

  -- `handleApplyError`
  unfoldable pub handle_apply_error : Error → BindingAct W ℤ
  handle_apply_error e = do
    let reason = apply_failure_reason (as_provider e)
    event_on_reason_change env applied reason Reason.apply_failed
    set_b (set_binding_condition env.meta applied is_false reason)
    set_b (aggregate_binding_ready env.meta)
    patch_binding_and_metrics env
    apply_retry e (as_provider e)
