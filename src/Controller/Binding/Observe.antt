-- ===== src/Controller/Binding/Observe.antt =====
-- internal/controller/binding_observe.go. The time of a condition's last change is left out, so
-- that `setFencedConflict`, which keeps that time, is `set_binding_condition`.
pub mod Drift
pub mod Protocol
use le_to_alicloud.Prelude.{
  ℕ, ◌/◌, Bool, true, false, not, ◌&&◌, ◌||◌, Option, none, some, List, [], ◌∷◌, Text, codes,
  text_eq, is_empty, any, trim_space, equal_fold, split_comma, ◌==◌, if◌then◌else◌, ok, ℤ, pos,
}
use le_to_alicloud.Api.Conditions.{
  Meta, Condition, ConditionType, Reason, is_true, is_false, applied, conflict, same_type,
  Reason-discrete,
}
use le_to_alicloud.Api.Binding.{AliyunCertificateBinding}
use le_to_alicloud.Aliyun.Errors.{Error, ProviderCode, ProviderError, as_provider}
use le_to_alicloud.Provider.Types.{CertMaterial}
use le_to_alicloud.Provider.Interface.{ObservedState}
use le_to_alicloud.Controller.Binding.World.{
  BindingEnv, BindingRound, BindingAct, event_normal, event_warning, count_drift, pure, raise, gets,
  ◌>>=◌, ◌>>◌, note, set_b, now,
}
use le_to_alicloud.Controller.Binding.Identity.{CertIdentity, capabilities_of, identity_of}
use le_to_alicloud.Controller.Binding.Status.{
  set_binding_condition, binding_cond_reason, set_binding_ready_false, aggregate_binding_ready,
  patch_binding_and_metrics,
}

-- five minutes
abbrev pub target_not_found_requeue : ℤ
target_not_found_requeue = pos 300000000000

abbrev pub credentials_requeue : ℤ
credentials_requeue = pos 300000000000

abbrev pub is_https : Text → Bool
is_https part = equal_fold (trim_space part) (codes "HTTPS")

-- `protocolSatisfied`
unfoldable pub protocol_satisfied : ObservedState → Bool → Bool
protocol_satisfied obs ensure_https =
    if not ensure_https then true else any is_https (split_comma obs.protocol)

abbrev seconds : ℕ → ℕ
seconds t = t / 1000000000

abbrev same_second : Option ℕ → ℕ → Bool
same_second none at = false
same_second (some t) at = seconds t == seconds at

abbrev observed_at : ℕ → AliyunCertificateBinding → AliyunCertificateBinding
observed_at at b = record b { status = record b.status { last_observed_time = some at } }

-- the loop of `noteObserveFailed`: the conditions with the new reason, if one is `Applied`
pub failed_conditions : List Condition → Option (List Condition)
failed_conditions [] = none
failed_conditions (c ∷ cs) =
    let rest = failed_conditions cs in
    if same_type c.type applied
    then some (record c { reason = Reason.observe_failed } ∷ cs)
    else elim rest [ none ↦ none | some cs' ↦ some (c ∷ cs') ]

-- `noteObserveFailed`; `none` where it answers false and changes nothing
unfoldable pub note_observe_failed : AliyunCertificateBinding → Option AliyunCertificateBinding
unfolding failed_conditions
note_observe_failed b = elim (failed_conditions b.status.conditions) [
  | none ↦ none
  | some cs ↦ some (record b { status = record b.status { conditions = cs } })
]

-- the test of `fenceAccount`: the target belongs to another account than the first time
unfoldable pub account_differs : AliyunCertificateBinding → ObservedState → Bool
account_differs b obs =
    not (is_empty b.status.bound_account_id)
    && not (text_eq b.status.bound_account_id obs.account_id)

abbrev pub with_drift : Text → Text → AliyunCertificateBinding → AliyunCertificateBinding
with_drift fingerprint cert_ref b = record b {
  status = record b.status { drifted_fingerprint = fingerprint; drifted_cert_ref = cert_ref };
}

-- The target has a certificate that is neither the one wanted nor the one applied last.
unfoldable pub has_drifted : CertIdentity → Bool
has_drifted id =
    not (is_empty id.current || text_eq id.current id.applied || text_eq id.current id.want)

-- what `noteDrift` writes in the status for a drift
abbrev pub record_drift : CertIdentity → AliyunCertificateBinding → AliyunCertificateBinding
record_drift id b =
    if id.by_ref
    then with_drift b.status.drifted_fingerprint id.current b
    else with_drift id.current b.status.drifted_cert_ref b

abbrev pub drift_before : CertIdentity → AliyunCertificateBinding → Text
drift_before id orig =
    if id.by_ref then orig.status.drifted_cert_ref else orig.status.drifted_fingerprint

abbrev pub same_reason : Option Reason → Reason → Bool
same_reason none r = false
same_reason (some q) r = elim (Reason-discrete q r) [ yes _ ↦ true | no _ ↦ false ]

module _ {W : Type 0} (env : BindingEnv W) where
  -- `return ctrl.Result{RequeueAfter: delay}, r.patchBinding(ctx, rd)`
  abbrev pub settle : ℤ → BindingAct W ℤ
  settle delay = do patch_binding_and_metrics env; pure delay

  -- `noteObserved`
  unfoldable pub note_observed : BindingAct W Unit
  note_observed = do
    at ← now env
    orig ← gets (λ s. s.orig)
    if same_second orig.status.last_observed_time at then pure tt else set_b (observed_at at)

  -- `eventOnReasonChange`
  unfoldable pub event_on_reason_change : ConditionType → Reason → Reason → BindingAct W Unit
  event_on_reason_change type reason event_reason = do
    orig ← gets (λ s. s.orig)
    if same_reason (binding_cond_reason env.meta orig type) reason
        then pure tt
        else note (event_warning event_reason)

  -- the trace that a failed observation leaves on `Applied`, and its event
  unfoldable pub note_failure : BindingAct W Unit
  note_failure = do
    b ← gets (λ s. s.b)
    elim (note_observe_failed b) [
      | none ↦ pure tt
      | some b' ↦ do
        set_b (λ _. b')
        event_on_reason_change applied Reason.observe_failed Reason.observe_failed
    ]

  -- the end of `handleObserveError`: the condition `Applied` keeps its status
  unfoldable pub bypass_observe_error : Error → Bool → BindingAct W ℤ
  unfolding note_failure
  bypass_observe_error e retryable = do
    note_failure
    set_b (aggregate_binding_ready env.meta)
    patch_binding_and_metrics env
    if retryable then raise e else pure env.drift_check_interval

  -- `handleObserveError`
  unfoldable pub handle_observe_error : Error → BindingAct W ℤ
  unfolding bypass_observe_error
  handle_observe_error e = elim (as_provider e) [
    | none ↦ bypass_observe_error e false
    | some p ↦ elim p.code [
      | ProviderCode.target_not_found ↦ do
        set_b (set_binding_condition env.meta applied is_false p.reason)
        set_b (aggregate_binding_ready env.meta)
        settle target_not_found_requeue
      | ProviderCode.auth ↦ do
        set_b (set_binding_ready_false env.meta p.reason)
        settle credentials_requeue
      | _ ↦ bypass_observe_error e p.retryable
    ]
  ]

  -- `setFencedConflict`
  abbrev pub set_fenced_conflict : AliyunCertificateBinding → AliyunCertificateBinding
  set_fenced_conflict = set_binding_condition env.meta conflict is_true Reason.account_mismatch

  -- `fenceAccount`; the answer says whether the round must not write
  unfoldable pub fence_account : ObservedState → BindingAct W Bool
  fence_account obs = do
    b ← gets (λ s. s.b)
    if account_differs b obs then (do set_b set_fenced_conflict; pure true) else pure false

  -- `noteDrift`
  unfoldable pub note_drift : ObservedState → CertMaterial → BindingAct W Unit
  note_drift obs m = do
    s ← gets (λ s. s)
    let id = identity_of (capabilities_of env.registry s.b) s.b obs m
    if not (has_drifted id) then set_b (with_drift [] []) else do
      set_b (record_drift id)
      if text_eq (drift_before id s.orig) id.current
          then pure tt
          else do note (count_drift s.provider); note (event_warning Reason.drift_corrected)
