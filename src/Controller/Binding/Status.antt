-- ===== src/Controller/Binding/Status.antt =====
-- internal/controller/binding_status.go, and the gauges of a binding of metrics.go.
pub mod Ready
use le_to_alicloud.Prelude.{
  ℕ, Bool, true, false, not, ◌&&◌, Option, none, some, [], ◌∷◌, Text, text_eq, is_empty,
  if◌then◌else◌, ok, ℤ, pos, sub_ℕ, ltb_ℤ,
}
use le_to_alicloud.Api.Conditions.{
  Meta, Condition, ConditionType, ConditionStatus, is_true, is_false, Reason, ready, applied,
  conflict,
}
use le_to_alicloud.Api.Certificate.{AliyunCertificate, CertificateGeneration}
use le_to_alicloud.Api.Binding.{AliyunCertificateBinding}
use le_to_alicloud.Controller.Binding.World.{
  BindingEnv, BindingRound, BindingAct, BindingTrace, set_readiness, set_applied_age, clear_gauges,
  pure, gets, ◌>>=◌, ◌>>◌, note, now, patch_binding_status,
}

-- `newBindingRound`
unfoldable pub new_binding_round :
    {W : Type 0} → AliyunCertificateBinding → BindingTrace → W → BindingRound W
new_binding_round b trace cloud = record {
  b = b;
  orig = b;
  provider = b.spec.target.type;
  lag = pos 0;
  trace = trace;
  cloud = cloud;
}

-- `targetRegion`
unfoldable pub target_region : AliyunCertificateBinding → Text
target_region b = elim b.spec.target.fc3_custom_domain [
  | some t ↦ t.region
  | none ↦ elim b.spec.target.oss_custom_domain [ some t ↦ t.region | none ↦ [] ]
]

abbrev pub reason_of : Option Condition → Option Reason
reason_of none = none
reason_of (some c) = some c.reason

abbrev pub or_observe_failed : Option Reason → Reason
or_observe_failed none = Reason.observe_failed
or_observe_failed (some r) = r

module _ (meta : Meta) where
  open meta use {set_status_condition, find_status_condition, is_status_condition_true}

  -- `setBindingCondition`
  unfoldable pub set_binding_condition :
      ConditionType → ConditionStatus → Reason → AliyunCertificateBinding → AliyunCertificateBinding
  set_binding_condition type status reason b = record b {
    status = record b.status {
      conditions = set_status_condition b.status.conditions (record {
        type = type;
        status = status;
        reason = reason;
        observed_generation = b.generation;
      });
    };
  }

  -- `bindingCondTrue`
  pub binding_cond_true : AliyunCertificateBinding → ConditionType → Bool
  binding_cond_true b type = is_status_condition_true b.status.conditions type

  -- `bindingCondReason`; `none` is the empty text
  pub binding_cond_reason : AliyunCertificateBinding → ConditionType → Option Reason
  binding_cond_reason b type = reason_of (find_status_condition b.status.conditions type)

  -- `setBindingReadyFalse`
  unfoldable pub set_binding_ready_false :
      Reason → AliyunCertificateBinding → AliyunCertificateBinding
  set_binding_ready_false reason b = set_binding_condition ready is_false reason b

  -- `aggregateBindingReady`; a condition that is true is there, so it has a reason
  unfoldable pub aggregate_binding_ready : AliyunCertificateBinding → AliyunCertificateBinding
  aggregate_binding_ready b =
      if binding_cond_true b applied && not (binding_cond_true b conflict)
      then set_binding_condition ready is_true Reason.was_applied b
      else (if binding_cond_true b conflict
          then set_binding_condition ready is_false
              (or_observe_failed (binding_cond_reason b conflict)) b
          else set_binding_condition ready is_false
              (or_observe_failed (binding_cond_reason b applied)) b)

abbrev current_of : Option AliyunCertificate → Option CertificateGeneration
current_of none = none
current_of (some ac) = ac.status.current

-- The current generation, if the binding has not applied it.
unfoldable pub lagging :
    AliyunCertificateBinding → Option AliyunCertificate → Option CertificateGeneration
lagging b ac = elim (current_of ac) [
  | none ↦ none
  | some g ↦
      if is_empty g.fingerprint
      then none
      else (if text_eq b.status.applied_fingerprint g.fingerprint then none else some g)
]

-- a duration that is not negative
abbrev pub floor_zero : ℤ → ℤ
floor_zero d = if ltb_ℤ d (pos 0) then pos 0 else d

module _ {W : Type 0} (env : BindingEnv W) where
  -- `appliedLag`
  unfoldable pub applied_lag : Option AliyunCertificate → BindingAct W ℤ
  applied_lag ac = do
    b ← gets (λ s. s.b)
    elim (lagging b ac) [
      | none ↦ pure (pos 0)
      | some g ↦ do at ← now env; pure (floor_zero (sub_ℕ at g.uploaded_at))
    ]

  -- `recordBindingReadiness`
  unfoldable pub record_binding_readiness : BindingAct W Unit
  record_binding_readiness = do
    b ← gets (λ s. s.b)
    note
        (set_readiness (binding_cond_true env.meta b ready) (binding_cond_true env.meta b conflict))

  -- `recordBindingMetrics`
  unfoldable pub record_binding_metrics : BindingAct W Unit
  record_binding_metrics = do
    record_binding_readiness
    lag ← gets (λ s. s.lag)
    note (set_applied_age lag)

  -- `patchBinding`
  unfoldable pub patch_binding_and_metrics : BindingAct W Unit
  patch_binding_and_metrics = do record_binding_metrics; patch_binding_status env

  -- `clearBindingMetrics`
  unfoldable pub clear_binding_metrics : BindingAct W Unit
  clear_binding_metrics = note clear_gauges
