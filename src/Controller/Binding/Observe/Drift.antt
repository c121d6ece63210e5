-- ===== src/Controller/Binding/Observe/Drift.antt =====
-- What `noteDrift` records.
use le_to_alicloud.Prelude.{
  ◌≡◌, ◌⊎◌, inl, inr, true, false, Bool, [], ◌∷◌, Text, is_empty, text_eq, arith, Bool-cases,
  if◌then◌else◌,
}
use le_to_alicloud.Api.Conditions.{Reason}
use le_to_alicloud.Api.Binding.{AliyunCertificateBinding}
use le_to_alicloud.Provider.Types.{CertMaterial}
use le_to_alicloud.Provider.Interface.{ObservedState}
use le_to_alicloud.Controller.Binding.World.{BindingEnv, BindingRound, count_drift, event_warning}
use le_to_alicloud.Controller.Binding.Identity.{capabilities_of, identity_of}
use le_to_alicloud.Controller.Binding.Look.{on_target, last_applied, wanted}
use le_to_alicloud.Controller.Binding.Observe.{has_drifted, note_drift}

-- the certificate that a binding of this kind has recorded as a drift
abbrev pub recorded : Bool → AliyunCertificateBinding → Text
recorded by_ref b = if by_ref then b.status.drifted_cert_ref else b.status.drifted_fingerprint

-- the binding with these two records of a drift, the fingerprint and the reference
abbrev pub drifted_to : Text → Text → AliyunCertificateBinding → AliyunCertificateBinding
drifted_to fingerprint cert_ref b = record b {
  status = record b.status { drifted_fingerprint = fingerprint; drifted_cert_ref = cert_ref };
}

module _ {W : Type 0} (env : BindingEnv W) where
  -- the provider of the binding knows a certificate by its reference
  abbrev pub by_reference : AliyunCertificateBinding → Bool
  by_reference b = (capabilities_of env.registry b).references_cert_by_id

  -- the binding with this certificate recorded as the drift, in the field of its kind
  abbrev pub drifted : Text → AliyunCertificateBinding → AliyunCertificateBinding
  drifted text b =
      if by_reference b
      then drifted_to b.status.drifted_fingerprint text b
      else drifted_to text b.status.drifted_cert_ref b

  -- There is no certificate on the target, or one that was applied last, or the one wanted.
  abbrev pub IsKnown : AliyunCertificateBinding → ObservedState → CertMaterial → Type 0
  IsKnown b obs m =
      (is_empty (on_target env b obs) ≡ true)
      ⊎ (text_eq (on_target env b obs) (last_applied env b) ≡ true)
      ⊎ (text_eq (on_target env b obs) (wanted env b m) ≡ true)

  -- There is one that is neither.
  abbrev pub IsForeign : AliyunCertificateBinding → ObservedState → CertMaterial → Type 0
  IsForeign b obs m =
      (is_empty (on_target env b obs) ≡ false)
      × (text_eq (on_target env b obs) (last_applied env b) ≡ false)
      × (text_eq (on_target env b obs) (wanted env b m) ≡ false)

  drift_cases :
      (b : AliyunCertificateBinding) (obs : ObservedState) (m : CertMaterial)
      → (IsKnown b obs m
          × (has_drifted (identity_of (capabilities_of env.registry b) b obs m) ≡ false))
        ⊎ (IsForeign b obs m
            × (has_drifted (identity_of (capabilities_of env.registry b) b obs m) ≡ true))
  unfolding has_drifted identity_of
  drift_cases b obs m = elim (Bool-cases (is_empty (on_target env b obs))) [
    | inl bare ↦ inl (inl bare, ground (arith, bare))
    | inr some_ ↦ elim (Bool-cases (text_eq (on_target env b obs) (last_applied env b))) [
      | inl old ↦ inl (inr (inl old), ground (arith, some_, old))
      | inr new ↦ elim (Bool-cases (text_eq (on_target env b obs) (wanted env b m))) [
        | inl fits ↦ inl (inr (inr fits), ground (arith, some_, new, fits))
        | inr other ↦ inr ((some_, new, other), ground (arith, some_, new, other))
      ]
    ]
  ]

  current_lem :
      (b : AliyunCertificateBinding) (obs : ObservedState) (m : CertMaterial)
      → ((identity_of (capabilities_of env.registry b) b obs m).current ≡ on_target env b obs)
        × ((identity_of (capabilities_of env.registry b) b obs m).by_ref ≡ by_reference b)
  unfolding identity_of
  current_lem b obs m = ground arith

  -- `noteDrift` finds a drift exactly when the target has a certificate that is neither the one wanted
  -- nor the one applied last. It then records that certificate in the field of its kind, and counts the
  -- drift and sends its event exactly when the binding had another drift, or none, recorded before the
  -- round. Where there is no drift, it clears both fields, and counts and sends nothing. Nothing else of
  -- the binding changes.
  pub note_drift-drift :
      (obs : ObservedState) (m : CertMaterial) (s : BindingRound W)
      → let after = (note_drift env obs m s).1 in
        let current = on_target env s.b obs in
        let before = recorded (by_reference s.b) s.orig in
        IsKnown s.b obs m × (after.b ≡ drifted_to [] [] s.b) × (after.trace ≡ s.trace)
        ⊎ (IsForeign s.b obs m
            × (after.b ≡ drifted current s.b)
            × ((text_eq before current ≡ true) × (after.trace ≡ s.trace)
                ⊎ ((text_eq before current ≡ false)
                    × (after.trace
                        ≡ event_warning Reason.drift_corrected
                          ∷ count_drift s.provider
                          ∷ s.trace))))
  unfolding note_drift
  note_drift-drift obs m s =
      let (same, kind) = current_lem s.b obs m in
      elim (drift_cases s.b obs m) [
        | inl (known, calm) ↦ inl (known, ground (arith, calm), ground (arith, calm))
        | inr (foreign, drifts) ↦
            elim (Bool-cases
              (text_eq (recorded (by_reference s.b) s.orig) (on_target env s.b obs))) [
                | inl old ↦ inr (
                  foreign,
                  ground (arith, drifts, old, same, kind),
                  inl (old, ground (arith, drifts, old, same, kind)),
                )
                | inr new ↦ inr (
                  foreign,
                  ground (arith, drifts, new, same, kind),
                  inr (new, ground (arith, drifts, new, same, kind)),
                )
              ]
      ]
