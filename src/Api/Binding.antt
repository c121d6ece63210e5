-- ===== src/Api/Binding.antt =====
-- api/v1alpha1/aliyuncertificatebinding_types.go.
use le_to_alicloud.Prelude.{
  ℕ, Bool, Option, none, some, List, [], ◌++◌, Text, codes, text_eq, if◌then◌else◌,
}
use le_to_alicloud.Api.Conditions.{Condition}

pub data DeletionPolicy : Type 0 where
  orphan unbind : DeletionPolicy

abbrev pub target_type_fc3_custom_domain : Text
target_type_fc3_custom_domain = codes "FC3CustomDomain"

abbrev pub target_type_oss_custom_domain : Text
target_type_oss_custom_domain = codes "OSSCustomDomain"

pub record Fc3CustomDomainTarget : Type 0 where
  pub region : Text
  pub domain_name : Text
  pub ensure_https_protocol : Bool

pub record OssCustomDomainTarget : Type 0 where
  pub region : Text
  pub bucket : Text
  pub domain_name : Text

pub record BindingTarget : Type 0 where
  pub type : Text
  pub fc3_custom_domain : Option Fc3CustomDomainTarget
  pub oss_custom_domain : Option OssCustomDomainTarget

pub record AliyunCertificateBindingSpec : Type 0 where
  pub certificate_ref : Text
  pub target : BindingTarget
  pub credentials_ref : Option Text
  pub deletion_policy : DeletionPolicy

pub record AliyunCertificateBindingStatus : Type 0 where
  pub observed_generation : ℕ
  pub applied_fingerprint : Text
  pub drifted_fingerprint : Text
  pub applied_cert_ref : Text
  pub drifted_cert_ref : Text
  pub last_applied_time : Option ℕ
  pub last_observed_time : Option ℕ
  pub bound_account_id : Text
  pub cleanup_started_at : Option ℕ
  pub conditions : List Condition

pub record AliyunCertificateBinding : Type 0 where
  pub namespace : Text
  pub name : Text
  pub uid : Text
  pub generation : ℕ
  pub creation_timestamp : ℕ
  pub deletion_timestamp : Option ℕ
  pub finalizer : Bool
  pub spec : AliyunCertificateBindingSpec
  pub status : AliyunCertificateBindingStatus

fc3_key : Text → Option Fc3CustomDomainTarget → Text
fc3_key type none = []
fc3_key type (some t) = type ++ (codes "/" ++ (t.region ++ (codes "/" ++ t.domain_name)))

oss_key : Text → Option OssCustomDomainTarget → Text
oss_key type none = []
oss_key type (some t) =
    type ++ (codes "/" ++ (t.region ++ (codes "/" ++ (t.bucket ++ (codes "/" ++ t.domain_name)))))

-- `TargetKey`
unfoldable pub target_key : AliyunCertificateBinding → Text
unfolding fc3_key oss_key
target_key b =
    let t = b.spec.target in
    if text_eq t.type target_type_fc3_custom_domain
    then fc3_key t.type t.fc3_custom_domain
    else (if text_eq t.type target_type_oss_custom_domain
        then oss_key t.type t.oss_custom_domain
        else [])
