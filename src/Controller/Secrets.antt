-- ===== src/Controller/Secrets.antt =====
-- internal/controller/desired.go: which Secret and which Certificate belong to a CR.
use le_to_alicloud.Prelude.{
  Bool, not, ◌&&◌, Option, none, some, List, [], ◌∷◌, ◌++◌, Text, codes, is_empty, text_eq,
  if◌then◌else◌, ℤ,
}
use le_to_alicloud.Api.Certificate.{AliyunCertificate, IssuerRef}
use le_to_alicloud.Controller.Issuer.{normalize_issuer_ref}

-- A Secret: its name, the annotation `cert-manager.io/certificate-name` (empty if absent), and
-- the data under `tls.crt` and `tls.key`.
pub record Secret : Type 0 where
  pub name : Text
  pub certificate_name : Text
  pub tls_crt : Text
  pub tls_key : Text

-- `secretNameFor`
unfoldable pub secret_name_for : AliyunCertificate → Text
secret_name_for ac =
    if not (is_empty ac.spec.secret_name) then ac.spec.secret_name else ac.name ++ codes "-tls"

-- `certManagerNameFor`
abbrev pub cert_manager_name_for : AliyunCertificate → Text
cert_manager_name_for ac = ac.name

-- `servingSecretName`
unfoldable pub serving_secret_name : AliyunCertificate → Text → Text
unfolding secret_name_for
serving_secret_name ac effective =
    if not (is_empty effective) then effective else secret_name_for ac

-- `secretNameGuardHolding`
unfoldable pub secret_name_guard_holding : AliyunCertificate → Bool
secret_name_guard_holding ac =
    not (is_empty ac.status.secret_name) && not (text_eq ac.status.secret_name (secret_name_for ac))

-- `secretOwnedByUs`
unfoldable pub secret_owned_by_us : Secret → AliyunCertificate → Bool
secret_owned_by_us s ac = text_eq s.certificate_name (cert_manager_name_for ac)

-- The cert-manager CertificateSpec, without the fields that are copied from the template unread.
pub record CertificateSpec : Type 0 where
  pub secret_name : Text
  pub issuer_ref : IssuerRef
  pub common_name : Text
  pub dns_names : List Text
  pub ip_addresses : List Text
  pub duration : Option ℤ
  pub renew_before : Option ℤ
  pub usages : List Text
  pub private_key_encoding : Text
  pub secret_labels : List (Text × Text)

abbrev encoding_or_pkcs1 : Option Text → Text
encoding_or_pkcs1 none = codes "PKCS1"
encoding_or_pkcs1 (some e) = if is_empty e then codes "PKCS1" else e

abbrev pub label_managed : Text
label_managed = codes "certs.bestheme.ac.cn/managed"

-- `labels[key] = value`
pub put_label : Text → Text → List (Text × Text) → List (Text × Text)
put_label key value [] = (key, value) ∷ []
put_label key value ((k, v) ∷ labels) =
    if text_eq k key then (key, value) ∷ labels else (k, v) ∷ put_label key value labels

abbrev labels_or_none : Option (List (Text × Text)) → List (Text × Text)
labels_or_none none = []
labels_or_none (some labels) = labels

-- `desiredCertificateSpec`
unfoldable pub desired_certificate_spec : AliyunCertificate → IssuerRef → CertificateSpec
unfolding put_label
desired_certificate_spec ac issuer =
    let t = ac.spec.certificate_template in
    record {
      secret_name = secret_name_for ac;
      issuer_ref = normalize_issuer_ref issuer;
      common_name = t.common_name;
      dns_names = t.dns_names;
      ip_addresses = t.ip_addresses;
      duration = t.duration;
      renew_before = t.renew_before;
      usages = t.usages;
      private_key_encoding = encoding_or_pkcs1 t.private_key_encoding;
      secret_labels = put_label label_managed (codes "true") (labels_or_none t.secret_labels);
    }
