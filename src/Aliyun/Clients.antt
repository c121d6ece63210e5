-- ===== src/Aliyun/Clients.antt =====
-- pkg/aliyun/cas.go, fc3.go and oss.go: what the program asks of the two clouds. `W` is the state of the
-- cloud.
use le_to_alicloud.Prelude.{ℕ, Bool, Option, Text}
use le_to_alicloud.Run.{Run}
use le_to_alicloud.Aliyun.Errors.{Error}

-- `aliyun.CertSummary`: what the controllers read of a listed certificate
pub record CertSummary : Type 0 where
  pub cert_id : ℕ
  pub name : Text

pub record CertConfig : Type 0 where
  pub cert_name : Text
  pub cert_pem : Text
  pub key_pem : Text

-- a certificate in a body of the FC3 SDK
pub record SdkCertConfig : Type 0 where
  pub cert_name : Option Text
  pub certificate : Option Text
  pub private_key : Option Text

-- the SDK's body of an update; the five settings, which nothing looks into, are texts
pub record SdkUpdateInput : Type 0 where
  pub protocol : Option Text
  pub cert_config : Option SdkCertConfig
  pub auth_config : Option Text
  pub cors_config : Option Text
  pub route_config : Option Text
  pub tls_config : Option Text
  pub waf_config : Option Text

-- the `any` of a payload: nothing, a marker of the fake cloud, or a body of the SDK
pub data EchoPayload : Type 0 where
  no_payload : EchoPayload
  marker : Text → EchoPayload
  sdk_input : SdkUpdateInput → EchoPayload

pub record DomainEcho : Type 0 where
  pub payload : EchoPayload

pub record CustomDomain : Type 0 where
  pub account_id : Text
  pub domain_name : Text
  pub protocol : Text
  pub cert_name : Text
  pub certificate_pem : Text
  pub echo : DomainEcho

pub record UpdateCustomDomainInput : Type 0 where
  pub protocol : Text
  pub cert_config : Option CertConfig
  pub clear_cert : Bool
  pub echo : DomainEcho

pub record Fc3Client (W : Type 0) : Type 0 where
  pub get_custom_domain : Text → Run Error W CustomDomain
  pub update_custom_domain : Text → UpdateCustomDomainInput → Run Error W Unit

pub record Cname : Type 0 where
  pub domain : Text
  pub cert_ref : Text
  pub account_id : Text

pub record OssClient (W : Type 0) : Type 0 where
  pub get_cname : Text → Text → Run Error W Cname
  pub put_cname_cert : Text → Text → Text → Run Error W Unit
  pub delete_cname_cert : Text → Text → Run Error W Unit
