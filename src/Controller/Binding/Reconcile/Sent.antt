-- ===== src/Controller/Binding/Reconcile/Sent.antt =====
-- The status that each step of a round sends.
use le_to_alicloud.Prelude.{
  ◌≡◌, refl, inl, inr, true, false, Option, none, some, [], ◌∷◌, arith, is_empty, Bool-cases, ok,
  Bool, if◌then◌else◌,
}
use le_to_alicloud.Api.Conditions.{ConditionType, Reason, is_false, applied}
use le_to_alicloud.Api.Binding.{AliyunCertificateBinding}
use le_to_alicloud.Aliyun.Errors.{Error, ProviderError, as_provider}
use le_to_alicloud.Provider.Types.{CertMaterial}
use le_to_alicloud.Provider.Interface.{ObservedState}
use le_to_alicloud.Controller.Binding.World.{BindingEnv, BindingRound}
use le_to_alicloud.Controller.Binding.World.Traces.{sent}
use le_to_alicloud.Controller.Binding.Identity.{capabilities_of, identity_of, ensure_https_of}
use le_to_alicloud.Controller.Binding.Status.{
  binding_cond_reason, set_binding_condition, aggregate_binding_ready, record_binding_readiness,
  record_binding_metrics, patch_binding_and_metrics,
}
use le_to_alicloud.Controller.Binding.Observe.{
  same_reason, account_differs, note_observed, event_on_reason_change, note_drift,
}
use le_to_alicloud.Controller.Binding.Apply.{
  record_applied, bind_account, set_applied, note_written, freeze_applied, apply_failure_reason,
  apply_retry, handle_apply_error,
}
use le_to_alicloud.Controller.Binding.Reconcile.{options_of, finish_applied, up_to_date}
use le_to_alicloud.Controller.Binding.Reconcile.Quiet.{event-ok}

-- What is recorded of the certificate and the account is the same.
abbrev pub SameRecord : AliyunCertificateBinding → AliyunCertificateBinding → Type 0
SameRecord b after =
    (after.status.applied_fingerprint ≡ b.status.applied_fingerprint)
    × (after.status.bound_account_id ≡ b.status.bound_account_id)

-- The material is recorded, and the account if none was.
abbrev pub Recorded :
    CertMaterial → ObservedState → AliyunCertificateBinding → AliyunCertificateBinding → Type 0
Recorded m obs b after =
    (after.status.applied_fingerprint ≡ m.fingerprint)
    × (after.status.drifted_fingerprint ≡ [])
    × (after.status.drifted_cert_ref ≡ [])
    × (after.status.bound_account_id ≡ (
        if is_empty b.status.bound_account_id then obs.account_id else b.status.bound_account_id))

module _ {W : Type 0} (env : BindingEnv W) where
  -- One status was sent, which has the property.
  abbrev pub SentOne :
      (AliyunCertificateBinding → Type 0) → BindingRound W → BindingRound W → Type 0
  SentOne P s after = (b : AliyunCertificateBinding) × (sent after.trace ≡ b ∷ sent s.trace) × P b

  pub patch-sent :
      (s : BindingRound W) → sent (patch_binding_and_metrics env s).1.trace ≡ s.b ∷ sent s.trace
  unfolding patch_binding_and_metrics record_binding_metrics record_binding_readiness
  patch-sent s = ground arith

  pub aggregate-SameRecord :
      (b : AliyunCertificateBinding) → SameRecord b (aggregate_binding_ready env.meta b)
  unfolding aggregate_binding_ready set_binding_condition
  aggregate-SameRecord b = ground arith

  aggregate-drift :
      (b : AliyunCertificateBinding)
      → ((aggregate_binding_ready env.meta b).status.drifted_fingerprint
          ≡ b.status.drifted_fingerprint)
        × ((aggregate_binding_ready env.meta b).status.drifted_cert_ref ≡ b.status.drifted_cert_ref)
  unfolding aggregate_binding_ready set_binding_condition
  aggregate-drift b = ground arith

  pub set-SameRecord :
      (t : ConditionType) (v : _) (r : Reason) (b : AliyunCertificateBinding)
      → SameRecord b (set_binding_condition env.meta t v r b)
  unfolding set_binding_condition
  set-SameRecord t v r b = (refl, refl)

  event-quiet :
      (t : ConditionType) (r q : Reason) (s : BindingRound W)
      → (sent (event_on_reason_change env t r q s).1.trace ≡ sent s.trace)
        × ((event_on_reason_change env t r q s).1.b ≡ s.b)
  unfolding event_on_reason_change
  event-quiet t r q s = elim (Bool-cases (same_reason (binding_cond_reason env.meta s.orig t) r)) [
    | inl same ↦ ground (arith, same)
    | inr new ↦ ground (arith, new)
  ]

  apply_retry-sent :
      (e : Error) (o : Option ProviderError) (s : BindingRound W)
      → sent (apply_retry env e o s).1.trace ≡ sent s.trace
  apply_retry-sent e none s = refl
  apply_retry-sent e (some p) s = ground arith

  pub handle_apply_error-Sent :
      (e : Error) (s : BindingRound W) → SentOne (SameRecord s.b) s (handle_apply_error env e s).1
  unfolding handle_apply_error
  handle_apply_error-Sent e s =
      let r = apply_failure_reason (as_provider e) in
      let s1 = (event_on_reason_change env applied r Reason.apply_failed s).1 in
      let b1 = set_binding_condition env.meta applied is_false r s1.b in
      let b2 = aggregate_binding_ready env.meta b1 in
      let s2 = record s1 { b = b2 } in
      let quiet = event-quiet applied r Reason.apply_failed s in
      (
        b2,
        ground (
          arith,
          event-ok env applied r Reason.apply_failed s,
          quiet,
          patch-sent s2,
          apply_retry-sent e (as_provider e) (patch_binding_and_metrics env s2).1,
        ),
        ground (arith, quiet, set-SameRecord applied is_false r s1.b, aggregate-SameRecord b1),
      )

  freeze_applied-Recorded :
      (obs : ObservedState) (m : CertMaterial) (w : Bool) (s : BindingRound W)
      → ((freeze_applied env obs m w s).0 ≡ ok tt)
        × (sent (freeze_applied env obs m w s).1.trace ≡ sent s.trace)
        × Recorded m obs s.b (freeze_applied env obs m w s).1.b
  unfolding freeze_applied set_applied note_written record_applied bind_account
      set_binding_condition
  freeze_applied-Recorded obs m true s = ground arith
  freeze_applied-Recorded obs m false s = ground arith

  pub finish_applied-Sent :
      (obs : ObservedState) (m : CertMaterial) (w : Bool) (s : BindingRound W)
      → SentOne (Recorded m obs s.b) s (finish_applied env obs m w s).1
  unfolding finish_applied
  finish_applied-Sent obs m w s =
      let s1 = (freeze_applied env obs m w s).1 in
      let b2 = aggregate_binding_ready env.meta s1.b in
      let (fine, quiet, recorded) = freeze_applied-Recorded obs m w s in
      (
        b2,
        ground (arith, fine, quiet, patch-sent (record s1 { b = b2 })),
        ground (arith, recorded, aggregate-SameRecord s1.b, aggregate-drift s1.b),
      )

  pub note_drift-Same :
      (obs : ObservedState) (m : CertMaterial) (s : BindingRound W)
      → ((note_drift env obs m s).0 ≡ ok tt)
        × (sent (note_drift env obs m s).1.trace ≡ sent s.trace)
        × SameRecord s.b (note_drift env obs m s).1.b
        × (options_of (note_drift env obs m s).1.b ≡ options_of s.b)
  unfolding note_drift ensure_https_of
  note_drift-Same obs m s = ground arith

  pub note_observed-Same :
      (obs : ObservedState) (m : CertMaterial) (s : BindingRound W)
      → ((note_observed env s).0 ≡ ok tt)
        × (sent (note_observed env s).1.trace ≡ sent s.trace)
        × SameRecord s.b (note_observed env s).1.b
        × (account_differs (note_observed env s).1.b obs ≡ account_differs s.b obs)
        × (up_to_date env (note_observed env s).1.b obs m ≡ up_to_date env s.b obs m)
        × (options_of (note_observed env s).1.b ≡ options_of s.b)
  unfolding note_observed ensure_https_of account_differs up_to_date identity_of capabilities_of
  note_observed-Same obs m s = ground arith
