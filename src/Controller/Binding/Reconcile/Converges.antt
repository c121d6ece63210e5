-- ===== src/Controller/Binding/Reconcile/Converges.antt =====
-- A certificate that the FC3 provider wrote is not written again.
use le_to_alicloud.Prelude.{
  ◌≡◌, ◌⊎◌, refl, inl, inr, true, false, [], is_empty, text_eq_refl, arith, Bool, ok,
}
use le_to_alicloud.Aliyun.Fake.Fc3.{FakeFc3, fake_fc3_client}
use le_to_alicloud.Pki.Bundle.{leaf_fingerprint}
use le_to_alicloud.Provider.Types.{CertMaterial}
use le_to_alicloud.Provider.Interface.{Target, ObservedState, ApplyOptions, fc3_client, Provider}
use le_to_alicloud.Provider.Fc3.{fc3_capabilities, protocol_has_https, fc3_observe, fc3_apply}
use le_to_alicloud.Provider.Fc3.RoundTrip.{fc3_observe-fc3_apply}
use le_to_alicloud.Api.Binding.{AliyunCertificateBinding}
use le_to_alicloud.Controller.Binding.World.{BindingEnv, BindingRound}
use le_to_alicloud.Controller.Binding.World.Traces.{applies}
use le_to_alicloud.Controller.Binding.Identity.{capabilities_of, identity_of, ensure_https_of}
use le_to_alicloud.Controller.Binding.Observe.{protocol_satisfied}
use le_to_alicloud.Controller.Binding.Observe.Protocol.{protocol_satisfied-protocol_has_https}
use le_to_alicloud.Controller.Binding.Reconcile.{up_to_date, compare_target}
use le_to_alicloud.Controller.Binding.Reconcile.Compared.{compare_target-applies}

satisfied :
    (obs : ObservedState) (ensure : Bool)
    → (ensure ≡ false) ⊎ (protocol_has_https obs.protocol ≡ true)
    → protocol_satisfied obs ensure ≡ true
unfolding protocol_satisfied
satisfied obs false h = refl
satisfied obs true (inl e) = absurd cc
satisfied obs true (inr has) = ground (arith, has, protocol_satisfied-protocol_has_https obs)

module _ (env : BindingEnv FakeFc3) where
  up_to_date_lem :
      (b : AliyunCertificateBinding) (obs : ObservedState) (m : CertMaterial)
      → capabilities_of env.registry b ≡ fc3_capabilities
      → obs.current_fingerprint ≡ m.fingerprint
      → protocol_satisfied obs (ensure_https_of b) ≡ true
      → up_to_date env b obs m ≡ true
  unfolding up_to_date identity_of
  up_to_date_lem b obs m inline same fits =
      ground (arith, inline, same, fits, text_eq_refl m.fingerprint)

  -- Once the FC3 provider wrote a certificate to the cloud in memory, under the protocol option of the
  -- binding, it observes a state on which a round for the same material writes nothing more. The
  -- binding's provider has the capabilities of the FC3 provider, the read is answered, and the
  -- certificate is read back with the fingerprint that the material names.
  pub compare_target-settled :
      (p : Provider FakeFc3) (t : Target) (m : CertMaterial) (o : ApplyOptions) (f f' : FakeFc3)
      (s : BindingRound FakeFc3)
      → capabilities_of env.registry s.b ≡ fc3_capabilities
      → o.ensure_https_protocol ≡ ensure_https_of s.b
      → fc3_apply t (fc3_client fake_fc3_client) m o f ≡ (ok tt, f')
      → f'.get_errs ≡ []
      → is_empty m.cert_pem ≡ false
      → leaf_fingerprint env.crypto m.cert_pem ≡ ok m.fingerprint
      → (obs : ObservedState) × ((fc3_observe env.crypto t (fc3_client fake_fc3_client) f').0
          ≡ ok obs)
        × (applies (compare_target env p (fc3_client fake_fc3_client) t m obs s).1.trace
            ≡ applies s.trace)
  compare_target-settled p t m o f f' s inline ensure run quiet nonempty print =
      let (obs, seen, same, _, https) =
        fc3_observe-fc3_apply env.crypto t m o f f' run quiet nonempty print in
      let fits = satisfied obs o.ensure_https_protocol https in
      let current = up_to_date_lem s.b obs m inline same (ground (arith, ensure, fits)) in
      elim (compare_target-applies env p (fc3_client fake_fc3_client) t m obs s) [
        | inl none_ ↦ (obs, seen, none_)
        | inr (_, behind, _) ↦ absurd (ground (arith, current, behind))
      ]
