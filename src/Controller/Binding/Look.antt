-- ===== src/Controller/Binding/Look.antt =====
-- What a round of the binding controller sees of its target, in words of its own: the observation that
-- `Observe` answers, the certificate on the target, and the account.
use le_to_alicloud.Prelude.{
  ◌≡◌, ◌⊎◌, true, false, Option, Text, is_empty, text_eq, text_eq_iff, arith, if◌then◌else◌, ok,
}
use le_to_alicloud.Api.Certificate.{AliyunCertificate}
use le_to_alicloud.Api.Binding.{AliyunCertificateBinding}
use le_to_alicloud.Provider.Types.{CertMaterial, cas_cert_ref}
use le_to_alicloud.Provider.Interface.{Target, ObservedState, Client, Provider}
use le_to_alicloud.Provider.Fc3.{protocol_has_https}
use le_to_alicloud.Controller.Binding.World.{BindingEnv, BindingRound}
use le_to_alicloud.Controller.Binding.Identity.{capabilities_of, ensure_https_of, target_of}
use le_to_alicloud.Controller.Binding.Observe.{account_differs}
use le_to_alicloud.Controller.Binding.Client.{provider_client}

-- The binding has no account recorded, or the one of the target.
abbrev pub InAccount : AliyunCertificateBinding → ObservedState → Type 0
InAccount b obs =
    (is_empty b.status.bound_account_id ≡ true) ⊎ (b.status.bound_account_id ≡ obs.account_id)

pub account_differs-InAccount :
    (b : AliyunCertificateBinding) (obs : ObservedState)
    → account_differs b obs ≡ false
    → InAccount b obs
unfolding account_differs
account_differs-InAccount b obs h =
    ground (arith, h, text_eq_iff b.status.bound_account_id obs.account_id)

module _ {W : Type 0} (env : BindingEnv W) where
  -- At this state of the round, the factory answers a provider and a client for the binding and the
  -- certificate, and the provider's `Observe` of the binding's target, in the cloud as it then is,
  -- answers this observation.
  abbrev pub Seen : Option AliyunCertificate → BindingRound W → Target → ObservedState → Type 0
  Seen ac s tg obs =
      (p : Provider W) × (cl : Client W) × ((provider_client env ac s).0 ≡ ok (p, cl))
      × (target_of s.b ≡ ok tg)
      × ((p.observe tg cl s.cloud).0 ≡ ok obs)

  -- the certificate on the target: a reference or a fingerprint, as the provider has it
  abbrev pub on_target : AliyunCertificateBinding → ObservedState → Text
  on_target b obs =
      if (capabilities_of env.registry b).references_cert_by_id
      then obs.current_cert_ref
      else obs.current_fingerprint

  -- the certificate that the binding applied last
  abbrev pub last_applied : AliyunCertificateBinding → Text
  last_applied b =
      if (capabilities_of env.registry b).references_cert_by_id
      then b.status.applied_cert_ref
      else b.status.applied_fingerprint

  -- the certificate of the material
  abbrev pub wanted : AliyunCertificateBinding → CertMaterial → Text
  wanted b m =
      if (capabilities_of env.registry b).references_cert_by_id
      then cas_cert_ref m
      else m.fingerprint

  -- The target has another certificate, or lacks HTTPS that the binding asks for.
  abbrev pub IsBehind : AliyunCertificateBinding → ObservedState → CertMaterial → Type 0
  IsBehind b obs m =
      (text_eq (on_target b obs) (wanted b m) ≡ false)
      ⊎ ((ensure_https_of b ≡ true) × (protocol_has_https obs.protocol ≡ false))
