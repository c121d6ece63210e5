-- ===== src/Scenarios/Targets.antt =====
-- Material for a target, its gates, and the errors of a provider.
use le_to_alicloud.Prelude.{◌≡◌, ◌↔◌, refl, true, false, some, none, ℕ, [], All, ok, codes, text_eq}
use le_to_alicloud.Api.Conditions.{Reason}
use le_to_alicloud.Api.Certificate.{CertificateGeneration, upload_enabled, effective_cas_region}
use le_to_alicloud.Aliyun.Errors.{
  Error, ErrClass, ProviderError, net_error, cloud, as_provider, class_of,
}
use le_to_alicloud.Pki.Bundle.{key_pem}
use le_to_alicloud.Pki.Sans.Missing.{covered_by}
use le_to_alicloud.Provider.Types.{Capabilities, cas_cert_ref}
use le_to_alicloud.Provider.Errors.{to_provider_error}
use le_to_alicloud.Provider.Errors.Mapping.{is_retryable, to_provider_error-class}
use le_to_alicloud.Controller.Binding.Material.{
  material_of, load_binding_material, required_domains_of, check_domain_coverage, certificate_gate,
  cas_upload_gate,
}
use le_to_alicloud.Controller.Binding.Material.Gates.{gates_pass, check_domain_coverage_iff}
use le_to_alicloud.Scenarios.Fakes.{uploaded_ac, fc3_binding}
use le_to_alicloud.Scenarios.Data.{test_bundle}
use le_to_alicloud.Scenarios.Toy.{toy_crypto}

abbrev oss : Capabilities
oss = record {
  references_cert_by_id = true;
  supports_protocol_switch = false;
  requires_cas_upload = true;
}

cas_cert_ref_42 :
    cas_cert_ref (material_of toy_crypto uploaded_ac test_bundle []) ≡ codes "42-cn-hangzhou"
unfolding cas_cert_ref material_of text_eq effective_cas_region
cas_cert_ref_42 = refl

load_binding_material-key :
    load_binding_material toy_crypto (λ name. ok test_bundle) uploaded_ac
    ≡ ok (
        material_of toy_crypto uploaded_ac test_bundle (
          toy_crypto.pem_encode
            (record { type = codes "RSA PRIVATE KEY"; proc_type = none; bytes = codes "key" })))
unfolding load_binding_material key_pem
load_binding_material-key = refl

gates_pass_example :
    (g : CertificateGeneration) × (id : ℕ) × (uploaded_ac.status.current ≡ some g)
    × (g.fingerprint ≡ test_bundle.fingerprint)
    × (g.cert_id ≡ some id)
    × ((material_of toy_crypto uploaded_ac test_bundle []).cert_id ≡ some id)
    × (upload_enabled uploaded_ac.spec.aliyun ≡ true)
unfolding certificate_gate cas_upload_gate material_of text_eq
gates_pass_example = gates_pass toy_crypto oss uploaded_ac test_bundle [] refl refl refl

check_domain_coverage_iff_example :
    (check_domain_coverage (λ t. t) (material_of toy_crypto uploaded_ac test_bundle []) fc3_binding
      ≡ none)
    ↔ All
        (λ d.
          covered_by (λ t. t) (material_of toy_crypto uploaded_ac test_bundle []).dns_names d
          ≡ true)
        (required_domains_of fc3_binding)
check_domain_coverage_iff_example =
    check_domain_coverage_iff (λ t. t) (material_of toy_crypto uploaded_ac test_bundle [])
      fc3_binding

abbrev throttled_call : Error
throttled_call =
    cloud
      (record { class = ErrClass.retryable; op = codes "Update"; code = codes "Throttling.User" })
      (net_error false)

to_provider_error-class_example :
    (e : Error) × (p : ProviderError) × (to_provider_error (some throttled_call) Reason.apply_failed
      ≡ some e)
    × (as_provider e ≡ some p)
    × (p.retryable ≡ is_retryable (class_of throttled_call))
    × (class_of e ≡ class_of throttled_call)
to_provider_error-class_example = to_provider_error-class throttled_call Reason.apply_failed
