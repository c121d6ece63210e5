-- ===== src/Controller/Binding/Material.antt =====
-- internal/controller/binding_material.go, and the gate of binding_identity.go: what may be written
-- to a target.
pub mod Gates
use le_to_alicloud.Prelude.{
  ℕ, Bool, true, false, not, ◌&&◌, Option, none, some, List, [], ◌∷◌, Text, text_eq, is_empty,
  is_some, if◌then◌else◌, Res, ok, err,
}
use le_to_alicloud.Naming.{cas_name}
use le_to_alicloud.Api.Conditions.{Reason}
use le_to_alicloud.Api.Certificate.{
  AliyunCertificate, CertificateGeneration, upload_enabled, effective_cas_region,
}
use le_to_alicloud.Api.Binding.{
  AliyunCertificateBinding, Fc3CustomDomainTarget, OssCustomDomainTarget,
  target_type_fc3_custom_domain, target_type_oss_custom_domain,
}
use le_to_alicloud.Pki.Crypto.{Crypto}
use le_to_alicloud.Pki.Bundle.{Bundle, PkiError, dns_names, cert_pem, key_pem}
use le_to_alicloud.Pki.Sans.{missing}
use le_to_alicloud.Controller.Secrets.{serving_secret_name}
use le_to_alicloud.Provider.Types.{CertMaterial, Capabilities}

abbrev id_of : Text → Option CertificateGeneration → Option ℕ
id_of fp none = none
id_of fp (some g) = if text_eq g.fingerprint fp then g.cert_id else none

abbrev name_of : Text → Text → Option CertificateGeneration → Text
name_of name fp none = name
name_of name fp (some g) =
    if text_eq g.fingerprint fp && not (is_empty g.cas_name) then g.cas_name else name

-- `loadBindingMaterial` on the parsed Secret and the encoded key
unfoldable pub material_of : Crypto → AliyunCertificate → Bundle → Text → CertMaterial
material_of crypto ac b key = record {
  fingerprint = b.fingerprint;
  cert_pem = cert_pem crypto b;
  key_pem = key;
  cert_id = id_of b.fingerprint ac.status.current;
  cas_name = name_of (cas_name ac.name b.fingerprint) b.fingerprint ac.status.current;
  not_after = b.leaf.not_after;
  dns_names = dns_names b;
  cas_region = effective_cas_region ac.spec.aliyun;
}

abbrev with_key : Crypto → AliyunCertificate → Bundle → Res PkiError Text → Res Reason CertMaterial
with_key crypto ac b (err _) = err Reason.secret_invalid
with_key crypto ac b (ok key) = ok (material_of crypto ac b key)

abbrev with_bundle : Crypto → AliyunCertificate → Res Reason Bundle → Res Reason CertMaterial
with_bundle crypto ac (err r) = err r
with_bundle crypto ac (ok b) = with_key crypto ac b (key_pem crypto b)

-- `loadBindingMaterial`; `loadBundle` of a Secret's name is an argument
unfoldable pub load_binding_material :
    Crypto → (Text → Res Reason Bundle) → AliyunCertificate → Res Reason CertMaterial
load_binding_material crypto load ac =
    with_bundle crypto ac (load (serving_secret_name ac ac.status.secret_name))

abbrev fc3_domains : Option Fc3CustomDomainTarget → List Text
fc3_domains none = []
fc3_domains (some t) = t.domain_name ∷ []

abbrev oss_domains : Option OssCustomDomainTarget → List Text
oss_domains none = []
oss_domains (some t) = t.domain_name ∷ []

-- `requiredDomainsOf`
unfoldable pub required_domains_of : AliyunCertificateBinding → List Text
required_domains_of b =
    let t = b.spec.target in
    if text_eq t.type target_type_fc3_custom_domain
    then fc3_domains t.fc3_custom_domain
    else (if text_eq t.type target_type_oss_custom_domain
        then oss_domains t.oss_custom_domain
        else [])

abbrev pub uncovered : List Text → Option Reason
uncovered [] = none
uncovered (_ ∷ _) = some Reason.domain_not_covered

abbrev pub coverage_of : (Text → Text) → List Text → List Text → Option Reason
coverage_of to_lower names [] = none
coverage_of to_lower names (d ∷ ds) = uncovered (missing to_lower names (d ∷ ds))

-- `checkDomainCoverage`
unfoldable pub check_domain_coverage :
    (Text → Text) → CertMaterial → AliyunCertificateBinding → Option Reason
check_domain_coverage to_lower m b = coverage_of to_lower m.dns_names (required_domains_of b)

-- `certificateGate`
unfoldable pub certificate_gate : CertMaterial → AliyunCertificate → Bool
certificate_gate m ac = elim ac.status.current [
  | none ↦ false
  | some g ↦ text_eq g.fingerprint m.fingerprint
]

-- `casUploadGate`; `none` lets the material pass
unfoldable pub cas_upload_gate : Capabilities → AliyunCertificate → CertMaterial → Option Reason
cas_upload_gate caps ac m =
    if not caps.requires_cas_upload
    then none
    else (if not (upload_enabled ac.spec.aliyun)
        then some Reason.cas_upload_required
        else (if not (is_some m.cert_id) then some Reason.certificate_not_ready else none))
