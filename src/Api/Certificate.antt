-- ===== src/Api/Certificate.antt =====
-- api/v1alpha1/aliyuncertificate_types.go. Of the metadata the model keeps what the controllers
-- read; `finalizer` says whether the list of finalizers has the operator's own. An instant is a
-- number of nanoseconds since 1970, a duration a signed number of nanoseconds. A certId, an int64
-- in the source, is a natural number: it is only compared and printed.
use le_to_alicloud.Prelude.{
  ℕ, Bool, true, Option, none, some, List, Text, ℤ, pos, ltb_ℤ, if◌then◌else◌, is_empty, not,
}
use le_to_alicloud.Api.Conditions.{Condition}

-- cert-manager's IssuerReference
pub record IssuerRef : Type 0 where
  pub name : Text
  pub kind : Text
  pub group : Text

-- Of the private key and the secret template only the fields that the operator itself sets.
pub record CertificateTemplate : Type 0 where
  pub issuer_ref : Option IssuerRef
  pub common_name : Text
  pub dns_names : List Text
  pub ip_addresses : List Text
  pub duration : Option ℤ
  pub renew_before : Option ℤ
  pub usages : List Text
  pub private_key_encoding : Option Text
  pub secret_labels : Option (List (Text × Text))

pub record AliyunSpec : Type 0 where
  pub credentials_ref : Text
  pub region : Text
  pub cas_region : Text
  pub endpoint_override : Text
  pub resource_group_id : Text
  pub upload_to_cas : Option Bool

abbrev pub upload_enabled : AliyunSpec → Bool
upload_enabled a = elim a.upload_to_cas [ none ↦ true | some b ↦ b ]

unfoldable pub effective_cas_region : AliyunSpec → Text
effective_cas_region a = if not (is_empty a.cas_region) then a.cas_region else a.region

pub record RetentionSpec : Type 0 where
  pub keep_last : ℤ
  pub min_age : Option ℤ

abbrev default_min_age : ℤ
default_min_age = pos 86400000000000

abbrev pub min_age_or_default : RetentionSpec → ℤ
min_age_or_default r = elim r.min_age [ none ↦ default_min_age | some d ↦ d ]

-- The result is at least 1, so it is a natural number.
abbrev to_nat : ℤ → ℕ
to_nat (pos n) = n
to_nat _ = 0

unfoldable pub keep_last_or_default : RetentionSpec → ℕ
keep_last_or_default r = if ltb_ℤ r.keep_last (pos 1) then 2 else to_nat r.keep_last

pub record AliyunCertificateSpec : Type 0 where
  pub secret_name : Text
  pub certificate_template : CertificateTemplate
  pub aliyun : AliyunSpec
  pub retention : RetentionSpec

pub record CertificateGeneration : Type 0 where
  pub fingerprint : Text
  pub cert_id : Option ℕ
  pub cas_name : Text
  pub not_before : ℕ
  pub not_after : ℕ
  pub uploaded_at : ℕ

pub record PendingUpload : Type 0 where
  pub fingerprint : Text
  pub cas_name : Text
  pub client_token : Text
  pub started_at : ℕ
  pub domain_hint : Text

pub record IssuanceStatus : Type 0 where
  pub revision : Option ℕ
  pub renewal_time : Option ℕ
  pub failed_issuance_attempts : Option ℕ
  pub last_failure_time : Option ℕ

pub record AliyunCertificateStatus : Type 0 where
  pub observed_generation : ℕ
  pub effective_issuer_ref : Option IssuerRef
  pub secret_name : Text
  pub cert_manager_certificate_name : Text
  pub issuance : Option IssuanceStatus
  pub current : Option CertificateGeneration
  pub history : List CertificateGeneration
  pub pending_upload : Option PendingUpload
  pub cas_probed_at : Option ℕ
  pub cleanup_started_at : Option ℕ
  pub conditions : List Condition

pub record AliyunCertificate : Type 0 where
  pub namespace : Text
  pub name : Text
  pub uid : Text
  pub generation : ℕ
  pub deletion_timestamp : Option ℕ
  pub finalizer : Bool
  pub spec : AliyunCertificateSpec
  pub status : AliyunCertificateStatus
