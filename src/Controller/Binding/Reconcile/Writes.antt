-- ===== src/Controller/Binding/Reconcile/Writes.antt =====
-- When a round writes a certificate to the target.
use le_to_alicloud.Prelude.{
  ◌≡◌, ◌⊎◌, inl, inr, true, false, none, some, List, ◌∷◌, arith, codes, text_eq, Bool-cases,
  Option-cases, Res-cases,
}
use le_to_alicloud.Api.Conditions.{Reason}
use le_to_alicloud.Api.Certificate.{AliyunCertificate}
use le_to_alicloud.Api.Binding.{AliyunCertificateBinding}
use le_to_alicloud.Aliyun.Errors.{plain}
use le_to_alicloud.Provider.Types.{CertMaterial}
use le_to_alicloud.Provider.Interface.{Target, ObservedState, ApplyOptions}
use le_to_alicloud.Controller.Binding.World.{
  BindingEnv, BindingRound, called, new_provider, observe_target,
}
use le_to_alicloud.Controller.Binding.World.Traces.{applies}
use le_to_alicloud.Controller.Binding.Material.{certificate_gate, cas_upload_gate}
use le_to_alicloud.Controller.Binding.Identity.{
  capabilities_of, identity_of, ensure_https_of, target_of,
}
use le_to_alicloud.Controller.Binding.Look.{
  InAccount, account_differs-InAccount, Seen, on_target, wanted, IsBehind,
}
use le_to_alicloud.Controller.Binding.Observe.Protocol.{
  protocol_satisfied_any, protocol_satisfied-protocol_has_https,
}
use le_to_alicloud.Controller.Binding.Reconcile.Compared.{compare_target-applies}
use le_to_alicloud.Controller.Binding.Client.{provider_client}
use le_to_alicloud.Controller.Binding.Reconcile.{
  options_of, up_to_date, visit_target, pass_gates, gate_delay, certificate_gate_requeue,
}
use le_to_alicloud.Controller.Binding.Reconcile.Quiet.{
  handle_observe_error-Untouched, handle_factory_error-Untouched, hold_back-Untouched,
}

abbrev pub Writes : Type 0
Writes = List (Target × (CertMaterial × ApplyOptions))

module _ {W : Type 0} (env : BindingEnv W) where
  up_to_date-IsBehind :
      (b : AliyunCertificateBinding) (obs : ObservedState) (m : CertMaterial)
      → up_to_date env b obs m ≡ false
      → IsBehind env b obs m
  unfolding up_to_date identity_of
  up_to_date-IsBehind b obs m h =
      elim (Bool-cases (text_eq (on_target env b obs) (wanted env b m))) [
        | inr other ↦ inl other
        | inl same ↦ elim (Bool-cases (ensure_https_of b)) [
          | inr any_ ↦ absurd (ground (arith, h, same, any_, protocol_satisfied_any obs))
          | inl asked ↦
              inr (asked, ground (arith, h, same, asked, protocol_satisfied-protocol_has_https obs))
        ]
      ]

  -- In the state `seen_at` the round saw the target of the binding in the right account, with another
  -- certificate or without HTTPS that is asked for, and the certificate was then written to it, once.
  abbrev pub WroteAfterLook :
      AliyunCertificate
      → AliyunCertificateBinding
      → BindingRound W
      → CertMaterial
      → Writes
      → Writes
      → Type 0
  WroteAfterLook ac b seen_at m before after =
      (tg : Target) × (obs : ObservedState) × Seen env (some ac) seen_at tg obs
      × InAccount b obs
      × IsBehind env b obs m
      × (after ≡ (tg, (m, options_of b)) ∷ before)

  visit_target-Wrote :
      (ac : AliyunCertificate) (m : CertMaterial) (s : BindingRound W)
      → (applies (visit_target env ac m s).1.trace ≡ applies s.trace)
        ⊎ WroteAfterLook ac s.b s m (applies s.trace) (applies (visit_target env ac m s).1.trace)
  unfolding visit_target provider_client
  visit_target-Wrote ac m s = elim (Option-cases env.provider_factory) [
    | inl missing ↦ inl (
        ground (
          arith,
          missing,
          handle_factory_error-Untouched env (plain (codes "no ProviderFactory")) s,
        ))
    | inr (make, there) ↦
        let s1 = called new_provider s in
        elim (Res-cases (make s.trace s.b (some ac))) [
          | inr (e, failed) ↦
              inl (ground (arith, there, failed, handle_factory_error-Untouched env e s1))
          | inl ((p, cl), made) ↦ elim (Res-cases (target_of s.b)) [
            | inr (e, unknown) ↦
                inl (ground (arith, there, made, unknown, handle_factory_error-Untouched env e s1))
            | inl (tg, known) ↦
                let s2 = record (called (observe_target tg) s1) {
                  cloud = (p.observe tg cl s1.cloud).1;
                } in
                elim (Res-cases (p.observe tg cl s.cloud).0) [
                  | inr (e, failed) ↦ inl (
                      ground (
                        arith,
                        there,
                        made,
                        known,
                        failed,
                        handle_observe_error-Untouched env e s2,
                      ))
                  | inl (obs, seen) ↦ elim (compare_target-applies env p cl tg m obs s2) [
                    | inl none_ ↦ inl (ground (arith, there, made, known, seen, none_))
                    | inr (fits, behind, one) ↦ inr (
                      tg,
                      obs,
                      (p, cl, ground (arith, there, made), known, seen),
                      account_differs-InAccount s.b obs fits,
                      up_to_date-IsBehind s.b obs m behind,
                      ground (arith, there, made, known, seen, one),
                    )
                  ]
                ]
          ]
        ]
  ]

  -- The gates of the material were passed before the look.
  abbrev pub WroteGated :
      AliyunCertificate
      → AliyunCertificateBinding
      → BindingRound W
      → CertMaterial
      → Writes
      → Writes
      → Type 0
  WroteGated ac b seen_at m before after =
      (certificate_gate m ac ≡ true)
      × (cas_upload_gate (capabilities_of env.registry b) ac m ≡ none)
      × WroteAfterLook ac b seen_at m before after

  pub pass_gates-Wrote :
      (ac : AliyunCertificate) (m : CertMaterial) (s : BindingRound W)
      → (applies (pass_gates env ac m s).1.trace ≡ applies s.trace)
        ⊎ WroteGated ac s.b s m (applies s.trace) (applies (pass_gates env ac m s).1.trace)
  unfolding pass_gates
  pass_gates-Wrote ac m s = elim (Bool-cases (certificate_gate m ac)) [
    | inr closed ↦ inl (
        ground (
          arith,
          closed,
          hold_back-Untouched env Reason.certificate_not_ready certificate_gate_requeue s,
        ))
    | inl open_ ↦ elim (Option-cases (cas_upload_gate (capabilities_of env.registry s.b) ac m)) [
      | inr (r, held) ↦ inl (
          ground (
            arith,
            open_,
            held,
            hold_back-Untouched env r (gate_delay env.drift_check_interval r) s,
          ))
      | inl free ↦ elim (visit_target-Wrote ac m s) [
        | inl none_ ↦ inl (ground (arith, open_, free, none_))
        | inr (tg, obs, seen, fits, behind, one) ↦
            inr (open_, free, (tg, obs, seen, fits, behind, ground (arith, open_, free, one)))
      ]
    ]
  ]
