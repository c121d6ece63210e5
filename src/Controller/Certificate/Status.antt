-- ===== src/Controller/Certificate/Status.antt =====
-- internal/controller/status.go, and `aggregateReady` and `setUploadedCondition`.
pub mod Ready
use le_to_alicloud.Prelude.{
  ℕ, Bool, true, false, not, ◌&&◌, ◌||◌, Option, none, some, List, [], ◌∷◌, is_some, if◌then◌else◌,
}
use le_to_alicloud.Api.Conditions.{
  Meta, Condition, ConditionType, ConditionStatus, is_true, is_false, Reason, ready, issued,
  uploaded, status_is_true,
}
use le_to_alicloud.Api.Certificate.{AliyunCertificate, IssuanceStatus, upload_enabled}
use le_to_alicloud.Controller.Secrets.{secret_name_guard_holding}
use le_to_alicloud.Controller.World.{
  CmCertificate, CmCondition, CmConditionType, cm_ready, cm_issuing, cm_other,
}

abbrev with_conditions : List Condition → AliyunCertificate → AliyunCertificate
with_conditions cs ac = record ac { status = record ac.status { conditions = cs } }

module _ (meta : Meta) where
  open meta use {set_status_condition, find_status_condition, is_status_condition_true}

  -- `setCondition`
  unfoldable pub set_condition :
      ConditionType → ConditionStatus → Reason → AliyunCertificate → AliyunCertificate
  set_condition type status reason ac =
      with_conditions
        (set_status_condition ac.status.conditions (record {
          type = type;
          status = status;
          reason = reason;
          observed_generation = ac.generation;
        }))
        ac

  -- `condTrue`
  unfoldable pub cond_true : AliyunCertificate → ConditionType → Bool
  cond_true ac type = is_status_condition_true ac.status.conditions type

  -- `setUploadedCondition`
  unfoldable pub set_uploaded_condition : AliyunCertificate → AliyunCertificate
  set_uploaded_condition ac =
      if not (upload_enabled ac.spec.aliyun)
      then set_condition uploaded is_false Reason.upload_disabled ac
      else elim ac.status.current [
        | none ↦ set_condition uploaded is_false Reason.upload_failed ac
        | some c ↦
            if is_some c.cert_id
            then set_condition uploaded is_true Reason.is_ready ac
            else set_condition uploaded is_false Reason.upload_failed ac
      ]

  abbrev reason_if_not_true : Option Condition → Option Reason
  reason_if_not_true none = none
  reason_if_not_true (some c) = if status_is_true (some c) then none else some c.reason

  -- the reason that `aggregateReady` gives for a CR that is not ready
  pub not_ready_reason : AliyunCertificate → Reason
  not_ready_reason ac =
      elim (reason_if_not_true (find_status_condition ac.status.conditions issued)) [
        | some r ↦ r
        | none ↦ elim (reason_if_not_true (find_status_condition ac.status.conditions uploaded)) [
          | some r ↦ r
          | none ↦ Reason.certificate_not_ready
        ]
      ]

  -- `aggregateReady`
  unfoldable pub aggregate_ready : AliyunCertificate → AliyunCertificate
  aggregate_ready ac =
      if secret_name_guard_holding ac
      then set_condition ready is_false Reason.secret_name_conflict ac
      else (if cond_true ac issued && (not (upload_enabled ac.spec.aliyun) || cond_true ac uploaded)
          then set_condition ready is_true Reason.is_ready ac
          else set_condition ready is_false (not_ready_reason ac) ac)

-- `mirrorIssuance`
unfoldable pub mirror_issuance : CmCertificate → AliyunCertificate → AliyunCertificate
mirror_issuance cert ac = record ac {
  status = record ac.status {
    issuance = some (record {
      revision = cert.revision;
      renewal_time = cert.renewal_time;
      failed_issuance_attempts = cert.failed_issuance_attempts;
      last_failure_time = cert.last_failure_time;
    });
  };
}

abbrev same_cm_type : CmConditionType → CmConditionType → Bool
same_cm_type cm_ready cm_ready = true
same_cm_type cm_issuing cm_issuing = true
same_cm_type cm_other cm_other = true
same_cm_type _ _ = false

-- `certCondition`
pub cert_condition : List CmCondition → CmConditionType → Option CmCondition
cert_condition [] t = none
cert_condition (c ∷ cs) t = if same_cm_type c.type t then some c else cert_condition cs t

-- `certReady`
unfoldable pub cert_ready : CmCertificate → Bool
unfolding cert_condition
cert_ready cert = elim (cert_condition cert.conditions cm_ready) [
  | none ↦ false
  | some c ↦ c.is_true
]

-- `certIssuingSince`
unfoldable pub cert_issuing_since : CmCertificate → Bool × Option ℕ
unfolding cert_condition
cert_issuing_since cert = elim (cert_condition cert.conditions cm_issuing) [
  | none ↦ (false, none)
  | some c ↦ if c.is_true then (true, c.last_transition_time) else (false, none)
]
