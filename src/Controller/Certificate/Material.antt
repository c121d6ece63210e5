-- ===== src/Controller/Certificate/Material.antt =====
-- internal/controller/material.go. A material error is the reason of its condition; its message is
-- left out.
pub mod Valid
use le_to_alicloud.Prelude.{
  Bool, true, false, ◌&&◌, not, Option, none, some, List, [], ◌∷◌, ◌++◌, Text, is_empty,
  if◌then◌else◌, Res, ok, err,
}
use le_to_alicloud.Api.Conditions.{Reason}
use le_to_alicloud.Api.Certificate.{AliyunCertificate}
use le_to_alicloud.Aliyun.Errors.{Error}
use le_to_alicloud.Pki.Crypto.{Crypto}
use le_to_alicloud.Pki.Bundle.{Bundle, PkiError, dns_names, parse_bundle, is_self_signed}
use le_to_alicloud.Pki.Sans.{missing}
use le_to_alicloud.Controller.Secrets.{Secret, serving_secret_name}
use le_to_alicloud.Controller.World.{
  Env, Call, get_secret, CmCertificate, Round, Act, pure, gets, attempt, perform, ◌>>=◌, ◌>>◌,
  is_api_not_found,
}
use le_to_alicloud.Controller.Certificate.Status.{cert_issuing_since}

-- the names that a certificate has to cover
unfoldable pub required_names : AliyunCertificate → List Text
required_names ac =
    let t = ac.spec.certificate_template in
    if is_empty t.common_name then t.dns_names else t.dns_names ++ t.common_name ∷ []

abbrev bundle_or : Res PkiError Bundle → Res Reason Bundle
bundle_or (ok b) = ok b
bundle_or (err _) = err Reason.secret_invalid

abbrev rejected_by : Option Reason → Bundle → Res Reason Bundle
rejected_by none b = ok b
rejected_by (some r) b = err r

abbrev pub is_nil : List Text → Bool
is_nil [] = true
is_nil (_ ∷ _) = false

-- what `loadBundle` makes of the API server's answer
unfoldable pub bundle_of : Crypto → Res Error Secret → Res Reason Bundle
bundle_of crypto (ok s) = bundle_or (parse_bundle crypto s.tls_crt s.tls_key)
bundle_of crypto (err e) =
    if is_api_not_found e then err Reason.secret_not_found else err Reason.secret_invalid

module _ (env : Env) where
  -- `loadBundle`
  unfoldable pub load_bundle : Text → Act (Res Reason Bundle)
  load_bundle name = do
    r ← attempt (perform (get_secret name) (λ t. env.on_get_secret t name))
    pure (bundle_of env.crypto r)

  -- `validateMaterial`
  pub validate_material : Bundle → AliyunCertificate → CmCertificate → Option Reason
  validate_material b ac cert =
      if (cert_issuing_since cert).0 && is_self_signed env.crypto b
      then some Reason.self_signed_during_issuance
      else (if not (is_nil (missing env.to_lower (dns_names b) (required_names ac)))
          then some Reason.sans_mismatch
          else none)

  abbrev validated : AliyunCertificate → CmCertificate → Res Reason Bundle → Res Reason Bundle
  validated ac cert (err r) = err r
  validated ac cert (ok b) = rejected_by (validate_material b ac cert) b

  -- `loadMaterial`
  unfoldable pub load_material : CmCertificate → Act (Res Reason Bundle)
  load_material cert = do
    ac ← gets (λ s. s.ac)
    loaded ← load_bundle (serving_secret_name ac cert.spec.secret_name)
    pure (validated ac cert loaded)
