-- ===== src/Controller/Binding/Identity.antt =====
-- internal/controller/binding_identity.go and targetOf of provider_factory.go: which certificate a
-- target should have, has, and had from the operator.
use le_to_alicloud.Prelude.{
  Bool, true, false, Option, none, some, List, Text, codes, text_eq, if◌then◌else◌, Res, ok, err,
}
use le_to_alicloud.Api.Binding.{
  AliyunCertificateBinding, Fc3CustomDomainTarget, OssCustomDomainTarget,
  target_type_fc3_custom_domain, target_type_oss_custom_domain,
}
use le_to_alicloud.Aliyun.Errors.{Error, plain}
use le_to_alicloud.Provider.Types.{CertMaterial, cas_cert_ref, Capabilities}
use le_to_alicloud.Provider.Interface.{Target, fc3_spec, oss_spec, ObservedState, Provider, get}

pub record CertIdentity : Type 0 where
  pub want : Text
  pub current : Text
  pub applied : Text
  pub by_ref : Bool

abbrev no_capabilities : Capabilities
no_capabilities = record {
  references_cert_by_id = false;
  supports_protocol_switch = false;
  requires_cas_upload = false;
}

-- `capabilitiesOf`
unfoldable pub capabilities_of :
    {W : Type 0} → List (Provider W) → AliyunCertificateBinding → Capabilities
capabilities_of registry b = elim (get registry b.spec.target.type) [
  | some p ↦ p.capabilities
  | none ↦ no_capabilities
]

-- `identityOf`; the deletion, which has no material, reads only `current` and `applied`
unfoldable pub identity_of :
    Capabilities → AliyunCertificateBinding → ObservedState → CertMaterial → CertIdentity
identity_of caps b obs m =
    if caps.references_cert_by_id
    then record {
      want = cas_cert_ref m;
      current = obs.current_cert_ref;
      applied = b.status.applied_cert_ref;
      by_ref = true;
    }
    else record {
      want = m.fingerprint;
      current = obs.current_fingerprint;
      applied = b.status.applied_fingerprint;
      by_ref = false;
    }

-- `ensureHTTPSOf`
unfoldable pub ensure_https_of : AliyunCertificateBinding → Bool
ensure_https_of b = elim b.spec.target.fc3_custom_domain [
  | none ↦ false
  | some t ↦ t.ensure_https_protocol
]

fc3_target : Text → Option Fc3CustomDomainTarget → Res Error Target
fc3_target type none = err (plain (codes "target without fc3CustomDomain"))
fc3_target type (some t) =
    ok (record { type = type; region = t.region; identifier = t.domain_name; spec = fc3_spec t })

oss_target : Text → Option OssCustomDomainTarget → Res Error Target
oss_target type none = err (plain (codes "target without ossCustomDomain"))
oss_target type (some t) =
    ok (record { type = type; region = t.region; identifier = t.domain_name; spec = oss_spec t })

-- `targetOf`
unfoldable pub target_of : AliyunCertificateBinding → Res Error Target
unfolding fc3_target oss_target
target_of b =
    let t = b.spec.target in
    if text_eq t.type target_type_fc3_custom_domain
    then fc3_target t.type t.fc3_custom_domain
    else (if text_eq t.type target_type_oss_custom_domain
        then oss_target t.type t.oss_custom_domain
        else err (plain (codes "unknown target.type")))
