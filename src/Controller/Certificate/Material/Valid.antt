-- ===== src/Controller/Certificate/Material/Valid.antt =====
-- Which material is accepted.
use le_to_alicloud.Prelude.{
  ◌≡◌, ◌↔◌, refl, true, false, ◌&&◌, none, List, [], ◌∷◌, Text, All, arith,
}
use le_to_alicloud.Api.Certificate.{AliyunCertificate}
use le_to_alicloud.Pki.Bundle.{Bundle, dns_names, is_self_signed}
use le_to_alicloud.Pki.Sans.Missing.{covered_by, missing-nil_iff}
use le_to_alicloud.Pki.Sans.{missing}
use le_to_alicloud.Controller.World.{Env, CmCertificate}
use le_to_alicloud.Controller.Certificate.Status.{cert_issuing_since}
use le_to_alicloud.Controller.Certificate.Material.{required_names, validate_material, is_nil}

nil_or : (xs : List Text) → (is_nil xs ≡ true) ↔ (xs ≡ [])
nil_or [] = (λ e. refl, λ e. refl)
nil_or (x ∷ xs) = (λ e. absurd cc, λ e. absurd cc)

-- A parsed certificate is accepted if and only if it is not self-signed while cert-manager is
-- issuing, and its names cover each DNS name and the common name that the CR asks for.
pub validate_material_iff :
    (env : Env) (b : Bundle) (ac : AliyunCertificate) (cert : CmCertificate)
    → (validate_material env b ac cert ≡ none) ↔ (
        ((cert_issuing_since cert).0 && is_self_signed env.crypto b ≡ false)
        × All (λ r. covered_by env.to_lower (dns_names b) r ≡ true) (required_names ac))
unfolding validate_material
validate_material_iff env b ac cert =
    let names = missing env.to_lower (dns_names b) (required_names ac) in
    let covers = missing-nil_iff env.to_lower (dns_names b) (required_names ac) in
    (
      λ h. (ground arith, covers.0 ((nil_or names).0 (ground arith))),
      λ h. ground (arith, h.0, (nil_or names).1 (covers.1 h.1)),
    )
