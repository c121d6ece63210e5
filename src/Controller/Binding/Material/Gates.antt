-- ===== src/Controller/Binding/Material/Gates.antt =====
-- What has passed the gates.
use le_to_alicloud.Prelude.{
  ◌≡◌, ◌↔◌, refl, true, none, some, List, [], ◌∷◌, Text, text_eq_iff, All, arith, ℕ, inl, inr,
  Option-cases,
}
use le_to_alicloud.Api.Certificate.{AliyunCertificate, CertificateGeneration, upload_enabled}
use le_to_alicloud.Api.Binding.{AliyunCertificateBinding}
use le_to_alicloud.Pki.Crypto.{Crypto}
use le_to_alicloud.Pki.Bundle.{Bundle}
use le_to_alicloud.Pki.Sans.{missing}
use le_to_alicloud.Pki.Sans.Missing.{covered_by, missing-nil_iff}
use le_to_alicloud.Provider.Types.{CertMaterial, Capabilities}
use le_to_alicloud.Controller.Binding.Material.{
  material_of, required_domains_of, check_domain_coverage, certificate_gate, cas_upload_gate,
  uncovered, coverage_of,
}

-- Material that passes both gates, for a provider that refers to certificates by certId, is that of
-- the current generation of the CR: the same fingerprint, and the certId that this generation has;
-- and the CR has uploading enabled.
pub gates_pass :
    (crypto : Crypto) (caps : Capabilities) (ac : AliyunCertificate) (b : Bundle) (key : Text)
    → caps.requires_cas_upload ≡ true
    → certificate_gate (material_of crypto ac b key) ac ≡ true
    → cas_upload_gate caps ac (material_of crypto ac b key) ≡ none
    → (g : CertificateGeneration) × (id : ℕ) × (ac.status.current ≡ some g)
      × (g.fingerprint ≡ b.fingerprint)
      × (g.cert_id ≡ some id)
      × ((material_of crypto ac b key).cert_id ≡ some id)
      × (upload_enabled ac.spec.aliyun ≡ true)
unfolding material_of certificate_gate cas_upload_gate
gates_pass crypto caps ac b key needs same pass = elim (Option-cases ac.status.current) [
  | inl nothing ↦ absurd (ground (arith, nothing))
  | inr (g, e) ↦ elim (Option-cases g.cert_id) [
    | inl nothing ↦ absurd (ground (arith, e, nothing))
    | inr (id, found) ↦ (
      g,
      id,
      e,
      ground (arith, e, text_eq_iff g.fingerprint b.fingerprint),
      found,
      ground (arith, e, found),
      ground arith,
    )
  ]
]

uncovered-nil_iff : (xs : List Text) → (uncovered xs ≡ none) ↔ (xs ≡ [])
uncovered-nil_iff [] = (λ e. refl, λ e. refl)
uncovered-nil_iff (x ∷ xs) = (λ e. absurd cc, λ e. absurd cc)

coverage_of_iff :
    (to_lower : Text → Text) (names ds : List Text)
    → (coverage_of to_lower names ds ≡ none) ↔ All (λ d. covered_by to_lower names d ≡ true) ds
coverage_of_iff to_lower names [] = (λ e. tt, λ e. refl)
coverage_of_iff to_lower names (d ∷ ds) =
    let gone = uncovered-nil_iff (missing to_lower names (d ∷ ds)) in
    let covers = missing-nil_iff to_lower names (d ∷ ds) in
    (λ e. covers.0 (gone.0 e), λ h. gone.1 (covers.1 h))

-- The check of the coverage passes exactly when a name of the certificate covers each domain that
-- the target needs.
pub check_domain_coverage_iff :
    (to_lower : Text → Text) (m : CertMaterial) (b : AliyunCertificateBinding)
    → (check_domain_coverage to_lower m b ≡ none)
      ↔ All (λ d. covered_by to_lower m.dns_names d ≡ true) (required_domains_of b)
unfolding check_domain_coverage
check_domain_coverage_iff to_lower m b =
    coverage_of_iff to_lower m.dns_names (required_domains_of b)
