-- ===== src/Controller/Certificate/Status/Ready.antt =====
-- What `Ready` means.
use le_to_alicloud.Prelude.{
  ◌≡◌, ◌↔◌, ◌⊎◌, Bool, true, false, arith, if◌then◌else◌, is_some, Option, none, some,
}
use le_to_alicloud.Api.Conditions.{
  Meta, Condition, ConditionType, ConditionStatus, is_true, is_false, Reason, ready, issued,
  uploaded, same_type,
}
use le_to_alicloud.Api.Certificate.{AliyunCertificate, CertificateGeneration, upload_enabled}
use le_to_alicloud.Controller.Secrets.{secret_name_guard_holding}
use le_to_alicloud.Controller.Certificate.Status.{
  set_condition, cond_true, aggregate_ready, set_uploaded_condition, not_ready_reason,
}

abbrev says_true : ConditionStatus → Bool
says_true is_true = true
says_true _ = false

abbrev pub has_cert_id : Option CertificateGeneration → Bool
has_cert_id none = false
has_cert_id (some c) = is_some c.cert_id

module _ (meta : Meta) where
  -- A condition that was set is the one that is read, and no other type changes.
  pub cond_true-set_condition :
      (type : ConditionType) (status : ConditionStatus) (reason : Reason) (ac : AliyunCertificate)
      (t : ConditionType)
      → cond_true meta (set_condition meta type status reason ac) t
        ≡ (if same_type type t then says_true status else cond_true meta ac t)
  unfolding cond_true set_condition
  cond_true-set_condition type status reason ac t =
      let c : Condition = record {
        type = type;
        status = status;
        reason = reason;
        observed_generation = ac.generation;
      } in
      ground (
        arith,
        meta.is_true_find (meta.set_status_condition ac.status.conditions c) t,
        meta.find_set ac.status.conditions c t,
        meta.is_true_find ac.status.conditions t,
      )

  -- After `aggregateReady`, Ready is true exactly when the Secret's name is not in conflict, Issued
  -- is true, and Uploaded is true or uploading is switched off.
  pub aggregate_ready_iff :
      (ac : AliyunCertificate)
      → (cond_true meta (aggregate_ready meta ac) ready ≡ true) ↔ (
          (secret_name_guard_holding ac ≡ false)
          × (cond_true meta ac issued ≡ true)
          × ((upload_enabled ac.spec.aliyun ≡ false) ⊎ (cond_true meta ac uploaded ≡ true)))
  unfolding aggregate_ready
  aggregate_ready_iff ac =
      let l1 = cond_true-set_condition ready is_true Reason.is_ready ac ready in
      let l2 = cond_true-set_condition ready is_false Reason.secret_name_conflict ac ready in
      let l3 = cond_true-set_condition ready is_false (not_ready_reason meta ac) ac ready in
      (ground arith, ground arith)

  -- `aggregateReady` changes no condition but Ready.
  pub aggregate_ready_others :
      (ac : AliyunCertificate) (t : ConditionType)
      → same_type ready t ≡ false
      → cond_true meta (aggregate_ready meta ac) t ≡ cond_true meta ac t
  unfolding aggregate_ready
  aggregate_ready_others ac t h = ground (
    arith,
    cond_true-set_condition ready is_true Reason.is_ready ac t,
    cond_true-set_condition ready is_false Reason.secret_name_conflict ac t,
    cond_true-set_condition ready is_false (not_ready_reason meta ac) ac t,
  )

  -- `setUploadedCondition` makes Uploaded true exactly when uploading is switched on and the
  -- current generation has a certId.
  pub set_uploaded_condition_iff :
      (ac : AliyunCertificate)
      → (cond_true meta (set_uploaded_condition meta ac) uploaded ≡ true)
        ↔ ((upload_enabled ac.spec.aliyun ≡ true) × (has_cert_id ac.status.current ≡ true))
  unfolding set_uploaded_condition
  set_uploaded_condition_iff ac =
      let l1 = cond_true-set_condition uploaded is_true Reason.is_ready ac uploaded in
      let l2 = cond_true-set_condition uploaded is_false Reason.upload_disabled ac uploaded in
      let l3 = cond_true-set_condition uploaded is_false Reason.upload_failed ac uploaded in
      (ground arith, ground arith)
