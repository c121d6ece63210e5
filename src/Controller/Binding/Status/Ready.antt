-- ===== src/Controller/Binding/Status/Ready.antt =====
-- What `Ready` of a binding means, and how long it lags.
use le_to_alicloud.Prelude.{
  ◌≡◌, ◌⊎◌, refl, sym, subst, ◌&&◌, Bool-cases, inl, inr, Bool, true, false, arith, if◌then◌else◌,
  some, not,
}
use le_to_alicloud.Api.Conditions.{
  Meta, Condition, ConditionType, ConditionStatus, is_true, is_false, Reason, ready, applied,
  conflict, same_type,
}
use le_to_alicloud.Api.Binding.{AliyunCertificateBinding}
use le_to_alicloud.Controller.Binding.Status.{
  set_binding_condition, binding_cond_true, binding_cond_reason, or_observe_failed,
  aggregate_binding_ready,
}

abbrev says_true : ConditionStatus → Bool
says_true is_true = true
says_true _ = false

module _ (meta : Meta) where
  pub binding_cond_true-set_binding_condition :
      (type : ConditionType) (status : ConditionStatus) (reason : Reason)
      (b : AliyunCertificateBinding) (t : ConditionType)
      → binding_cond_true meta (set_binding_condition meta type status reason b) t
        ≡ (if same_type type t then says_true status else binding_cond_true meta b t)
  unfolding binding_cond_true set_binding_condition
  binding_cond_true-set_binding_condition type status reason b t =
      let c : Condition = record {
        type = type;
        status = status;
        reason = reason;
        observed_generation = b.generation;
      } in
      ground (
        arith,
        meta.is_true_find (meta.set_status_condition b.status.conditions c) t,
        meta.find_set b.status.conditions c t,
        meta.is_true_find b.status.conditions t,
      )

  binding_cond_reason-set_binding_condition :
      (type : ConditionType) (status : ConditionStatus) (reason : Reason)
      (b : AliyunCertificateBinding)
      → binding_cond_reason meta (set_binding_condition meta type status reason b) type
        ≡ some reason
  unfolding binding_cond_reason set_binding_condition
  binding_cond_reason-set_binding_condition type status reason b =
      let c : Condition = record {
        type = type;
        status = status;
        reason = reason;
        observed_generation = b.generation;
      } in
      ground (arith, meta.find_set b.status.conditions c type)

  -- The second binding is the first with other conditions at most, and of these only `Ready`.
  abbrev pub OnlyReady :
      AliyunCertificateBinding → AliyunCertificateBinding → ConditionType → Type 0
  OnlyReady b after t =
      (after ≡ record b { status = record b.status { conditions = after.status.conditions } })
      × ((same_type ready t ≡ true)
          ⊎ (meta.find_status_condition after.status.conditions t
              ≡ meta.find_status_condition b.status.conditions t))

  set_ready-OnlyReady :
      (b : AliyunCertificateBinding) (status : ConditionStatus) (reason : Reason)
      (t : ConditionType)
      → OnlyReady b (set_binding_condition meta ready status reason b) t
  unfolding set_binding_condition
  set_ready-OnlyReady b status reason t =
      let c : Condition = record {
        type = ready;
        status = status;
        reason = reason;
        observed_generation = b.generation;
      } in
      (
        refl,
        elim (Bool-cases (same_type ready t)) [
          | inl same ↦ inl same
          | inr other ↦ inr (ground (arith, other, meta.find_set b.status.conditions c t))
        ],
      )

  -- what a new `Ready` changes
  now_ready :
      (b : AliyunCertificateBinding) (t : ConditionType) (status : ConditionStatus)
      (reason : Reason) (after : AliyunCertificateBinding)
      → after ≡ set_binding_condition meta ready status reason b
      → (binding_cond_true meta after ready ≡ says_true status)
        × (binding_cond_reason meta after ready ≡ some reason)
        × OnlyReady b after t
  now_ready b t status reason after e =
      subst
        (λ x.
          (binding_cond_true meta x ready ≡ says_true status)
          × (binding_cond_reason meta x ready ≡ some reason)
          × OnlyReady b x t)
        (sym e)
        (
          binding_cond_true-set_binding_condition ready status reason b ready,
          binding_cond_reason-set_binding_condition ready status reason b,
          set_ready-OnlyReady b status reason t,
        )

  -- the reason that `Ready` has to show
  abbrev pub ready_reason : AliyunCertificateBinding → Reason
  ready_reason b =
      if binding_cond_true meta b conflict
      then or_observe_failed (binding_cond_reason meta b conflict)
      else (if binding_cond_true meta b applied
          then Reason.was_applied
          else or_observe_failed (binding_cond_reason meta b applied))

  -- After `aggregateBindingReady`, Ready is true exactly when Applied is true and Conflict is not, and
  -- its reason is that of a conflict, else that of Applied: `Applied` where this is true, the reason of
  -- the failure where it is not, and `ObserveFailed` where nothing was ever applied. A condition of any
  -- other type is found as it was, with its status and reason, and the conditions are all that changes.
  pub aggregate_binding_ready-Ready :
      (b : AliyunCertificateBinding) (t : ConditionType)
      → (binding_cond_true meta (aggregate_binding_ready meta b) ready
          ≡ (binding_cond_true meta b applied && not (binding_cond_true meta b conflict)))
        × (binding_cond_reason meta (aggregate_binding_ready meta b) ready ≡ some (ready_reason b))
        × OnlyReady b (aggregate_binding_ready meta b) t
  unfolding aggregate_binding_ready
  aggregate_binding_ready-Ready b t = elim (Bool-cases (binding_cond_true meta b conflict)) [
    | inl fights ↦
        let (truth, reason, only) =
          now_ready b t is_false (or_observe_failed (binding_cond_reason meta b conflict))
            (aggregate_binding_ready meta b) (ground (arith, fights)) in
        (ground (arith, fights, truth), ground (arith, fights, reason), only)
    | inr free ↦ elim (Bool-cases (binding_cond_true meta b applied)) [
      | inl there ↦
          let (truth, reason, only) =
            now_ready b t is_true Reason.was_applied (aggregate_binding_ready meta b)
              (ground (arith, free, there)) in
          (ground (arith, free, there, truth), ground (arith, free, there, reason), only)
      | inr missing ↦
          let (truth, reason, only) =
            now_ready b t is_false (or_observe_failed (binding_cond_reason meta b applied))
              (aggregate_binding_ready meta b) (ground (arith, free, missing)) in
          (ground (arith, free, missing, truth), ground (arith, free, missing, reason), only)
    ]
  ]
