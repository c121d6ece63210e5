-- ===== src/Controller/Binding/Reconcile/Quiet.antt =====
-- The steps of a round that write to no target.
use le_to_alicloud.Prelude.{
  ◌≡◌, refl, inl, inr, true, false, Option, none, some, arith, ℤ, Bool-cases, Option-cases, ok,
  Bool,
}
use le_to_alicloud.Api.Conditions.{ConditionType, Reason, is_false, applied}
use le_to_alicloud.Api.Binding.{AliyunCertificateBinding}
use le_to_alicloud.Aliyun.Errors.{Error, ProviderError, as_provider, as_credentials}
use le_to_alicloud.Provider.Types.{CertMaterial}
use le_to_alicloud.Provider.Interface.{ObservedState}
use le_to_alicloud.Controller.Binding.World.{BindingEnv, BindingRound}
use le_to_alicloud.Controller.Binding.World.Traces.{applies, cleanups}
use le_to_alicloud.Controller.Binding.Status.{
  binding_cond_reason, set_binding_condition, set_binding_ready_false, aggregate_binding_ready,
  record_binding_readiness, record_binding_metrics, patch_binding_and_metrics,
}
use le_to_alicloud.Controller.Binding.Observe.{
  note_observed, event_on_reason_change, note_observe_failed, note_failure, bypass_observe_error,
  handle_observe_error, note_drift, same_reason,
}
use le_to_alicloud.Controller.Binding.Apply.{
  set_applied, note_written, freeze_applied, apply_failure_reason, apply_retry, handle_apply_error,
}
use le_to_alicloud.Controller.Binding.Client.{factory_reason, handle_factory_error}
use le_to_alicloud.Controller.Binding.Reconcile.{finish_applied, hold_back}

module _ {W : Type 0} (env : BindingEnv W) where
  -- No target is written to.
  abbrev pub Untouched : BindingRound W → BindingRound W → Type 0
  Untouched s after =
      (applies after.trace ≡ applies s.trace) × (cleanups after.trace ≡ cleanups s.trace)

  pub patch-Untouched : (s : BindingRound W) → Untouched s (patch_binding_and_metrics env s).1
  unfolding patch_binding_and_metrics record_binding_metrics record_binding_readiness
  patch-Untouched s = ground arith

  pub note_observed-Untouched : (s : BindingRound W) → Untouched s (note_observed env s).1
  unfolding note_observed
  note_observed-Untouched s = ground arith

  pub event-Untouched :
      (t : ConditionType) (r q : Reason) (s : BindingRound W)
      → Untouched s (event_on_reason_change env t r q s).1
  unfolding event_on_reason_change
  event-Untouched t r q s =
      elim (Bool-cases (same_reason (binding_cond_reason env.meta s.orig t) r)) [
        | inl same ↦ ground (arith, same)
        | inr new ↦ ground (arith, new)
      ]

  pub event-ok :
      (t : ConditionType) (r q : Reason) (s : BindingRound W)
      → (event_on_reason_change env t r q s).0 ≡ ok tt
  unfolding event_on_reason_change
  event-ok t r q s = elim (Bool-cases (same_reason (binding_cond_reason env.meta s.orig t) r)) [
    | inl same ↦ ground (arith, same)
    | inr new ↦ ground (arith, new)
  ]

  pub note_drift-Untouched :
      (obs : ObservedState) (m : CertMaterial) (s : BindingRound W)
      → Untouched s (note_drift env obs m s).1
  unfolding note_drift
  note_drift-Untouched obs m s = ground arith

  pub apply_retry-Untouched :
      (e : Error) (o : Option ProviderError) (s : BindingRound W)
      → Untouched s (apply_retry env e o s).1
  apply_retry-Untouched e none s = (refl, refl)
  apply_retry-Untouched e (some p) s = ground arith

  abbrev pub with_b :
      (AliyunCertificateBinding → AliyunCertificateBinding) → BindingRound W → BindingRound W
  with_b f s = record s { b = f s.b }

  pub handle_apply_error-Untouched :
      (e : Error) (s : BindingRound W) → Untouched s (handle_apply_error env e s).1
  unfolding handle_apply_error
  handle_apply_error-Untouched e s =
      let r = apply_failure_reason (as_provider e) in
      let s1 = (event_on_reason_change env applied r Reason.apply_failed s).1 in
      let s2 =
        with_b
          (λ b.
            aggregate_binding_ready env.meta (set_binding_condition env.meta applied is_false r b))
          s1 in
      ground (
        arith,
        event-ok applied r Reason.apply_failed s,
        event-Untouched applied r Reason.apply_failed s,
        patch-Untouched s2,
        apply_retry-Untouched e (as_provider e) (patch_binding_and_metrics env s2).1,
      )

  pub freeze_applied-Untouched :
      (obs : ObservedState) (m : CertMaterial) (w : Bool) (s : BindingRound W)
      → Untouched s (freeze_applied env obs m w s).1
  unfolding freeze_applied set_applied note_written
  freeze_applied-Untouched obs m true s = ground arith
  freeze_applied-Untouched obs m false s = ground arith

  freeze_applied-ok :
      (obs : ObservedState) (m : CertMaterial) (w : Bool) (s : BindingRound W)
      → (freeze_applied env obs m w s).0 ≡ ok tt
  unfolding freeze_applied set_applied note_written
  freeze_applied-ok obs m true s = ground arith
  freeze_applied-ok obs m false s = ground arith

  pub finish_applied-Untouched :
      (obs : ObservedState) (m : CertMaterial) (w : Bool) (s : BindingRound W)
      → Untouched s (finish_applied env obs m w s).1
  unfolding finish_applied
  finish_applied-Untouched obs m w s =
      let s1 = (freeze_applied env obs m w s).1 in
      ground (
        arith,
        freeze_applied-ok obs m w s,
        freeze_applied-Untouched obs m w s,
        patch-Untouched (with_b (aggregate_binding_ready env.meta) s1),
      )

  note_failure-Untouched : (s : BindingRound W) → Untouched s (note_failure env s).1
  unfolding note_failure
  note_failure-Untouched s = elim (Option-cases (note_observe_failed s.b)) [
    | inl silent ↦ ground (arith, silent)
    | inr (b, noted) ↦ ground (
      arith,
      noted,
      event-Untouched applied Reason.observe_failed Reason.observe_failed (with_b (λ _. b) s),
    )
  ]

  note_failure-ok : (s : BindingRound W) → (note_failure env s).0 ≡ ok tt
  unfolding note_failure
  note_failure-ok s = elim (Option-cases (note_observe_failed s.b)) [
    | inl silent ↦ ground (arith, silent)
    | inr (b, noted) ↦ ground (
      arith,
      noted,
      event-ok applied Reason.observe_failed Reason.observe_failed (with_b (λ _. b) s),
    )
  ]

  bypass_observe_error-Untouched :
      (e : Error) (retryable : Bool) (s : BindingRound W)
      → Untouched s (bypass_observe_error env e retryable s).1
  unfolding bypass_observe_error
  bypass_observe_error-Untouched e retryable s =
      let s1 = (note_failure env s).1 in
      ground (
        arith,
        note_failure-ok s,
        note_failure-Untouched s,
        patch-Untouched (with_b (aggregate_binding_ready env.meta) s1),
      )

  pub handle_observe_error-Untouched :
      (e : Error) (s : BindingRound W) → Untouched s (handle_observe_error env e s).1
  unfolding handle_observe_error
  handle_observe_error-Untouched e s = elim (Option-cases (as_provider e)) [
    | inl other ↦ ground (arith, other, bypass_observe_error-Untouched e false s)
    | inr (p, known) ↦ ground (
      arith,
      known,
      bypass_observe_error-Untouched e p.retryable s,
      patch-Untouched (with_b (set_binding_ready_false env.meta p.reason) s),
      patch-Untouched (
          with_b
            (λ b.
              aggregate_binding_ready env.meta
                (set_binding_condition env.meta applied is_false p.reason b))
            s),
    )
  ]

  pub handle_factory_error-Untouched :
      (e : Error) (s : BindingRound W) → Untouched s (handle_factory_error env e s).1
  unfolding handle_factory_error
  handle_factory_error-Untouched e s = ground (
    arith,
    patch-Untouched
        (with_b (set_binding_ready_false env.meta (factory_reason (as_credentials e))) s),
  )

  pub hold_back-Untouched :
      (r : Reason) (d : ℤ) (s : BindingRound W) → Untouched s (hold_back env r d s).1
  unfolding hold_back
  hold_back-Untouched r d s = ground (
    arith,
    patch-Untouched (
        with_b
          (λ b.
            aggregate_binding_ready env.meta (set_binding_condition env.meta applied is_false r b))
          s),
  )
