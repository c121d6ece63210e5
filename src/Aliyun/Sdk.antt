-- ===== src/Aliyun/Sdk.antt =====
-- The translations of pkg/aliyun/fc3_sdk.go and oss_sdk.go between the SDKs' bodies and the program's
-- own. The fields of a body are pointers.
pub mod Secrecy
use le_to_alicloud.Prelude.{
  Option, none, some, List, [], ◌∷◌, Text, codes, is_empty, not, equal_fold, if◌then◌else◌, Res, ok,
  err,
}
use le_to_alicloud.Aliyun.Errors.{Error, ErrClass, make_cloud, plain}
use le_to_alicloud.Aliyun.Clients.{
  CertConfig, SdkCertConfig, SdkUpdateInput, EchoPayload, no_payload, sdk_input, CustomDomain,
  UpdateCustomDomainInput, Cname,
}

-- `dara.StringValue`
abbrev pub string_value : Option Text → Text
string_value none = []
string_value (some t) = t

-- the SDK's custom domain
pub record SdkCustomDomain : Type 0 where
  pub account_id : Option Text
  pub domain_name : Option Text
  pub protocol : Option Text
  pub cert_config : Option SdkCertConfig
  pub auth_config : Option Text
  pub cors_config : Option Text
  pub route_config : Option Text
  pub tls_config : Option Text
  pub waf_config : Option Text

abbrev name_of : Option SdkCertConfig → Text
name_of none = []
name_of (some c) = string_value c.cert_name

abbrev certificate_of : Option SdkCertConfig → Text
certificate_of none = []
certificate_of (some c) = string_value c.certificate

-- `customDomainFromSDK`
pub custom_domain_from_sdk : SdkCustomDomain → CustomDomain
custom_domain_from_sdk d = record {
  account_id = string_value d.account_id;
  domain_name = string_value d.domain_name;
  protocol = string_value d.protocol;
  cert_name = name_of d.cert_config;
  certificate_pem = certificate_of d.cert_config;
  echo = record {
    payload = sdk_input (record {
      protocol = none;
      cert_config = none;
      auth_config = d.auth_config;
      cors_config = d.cors_config;
      route_config = d.route_config;
      tls_config = d.tls_config;
      waf_config = d.waf_config;
    });
  };
}

abbrev empty_input : SdkUpdateInput
empty_input = record {
  protocol = none;
  cert_config = none;
  auth_config = none;
  cors_config = none;
  route_config = none;
  tls_config = none;
  waf_config = none;
}

-- the body that an echo carries
pub base_of : EchoPayload → Res Error SdkUpdateInput
base_of no_payload = ok empty_input
base_of (sdk_input body) = ok body
base_of _ = err (
    make_cloud ErrClass.permanent (codes "UpdateCustomDomain") (codes "InvalidEcho")
      (plain (codes "echo of another type")))

abbrev with_protocol : Text → SdkUpdateInput → SdkUpdateInput
with_protocol p body = if not (is_empty p) then record body { protocol = some p } else body

abbrev with_cert_config : Option CertConfig → SdkUpdateInput → SdkUpdateInput
with_cert_config none body = body
with_cert_config (some c) body = record body {
  cert_config = some (record {
    cert_name = some c.cert_name;
    certificate = some c.cert_pem;
    private_key = some c.key_pem;
  });
}

abbrev cleared : SdkUpdateInput → SdkUpdateInput
cleared body = record body {
  cert_config = some (record { cert_name = some []; certificate = some []; private_key = some [] });
}

-- `updateInputToSDK`
pub update_input_to_sdk : UpdateCustomDomainInput → Res Error SdkUpdateInput
update_input_to_sdk in_ = elim (base_of in_.echo.payload) [
  | err e ↦ err e
  | ok base ↦
      let body = with_protocol in_.protocol base in
      ok (if in_.clear_cert then cleared body else with_cert_config in_.cert_config body)
]

-- an entry of the SDK's list of custom domains
pub record SdkCname : Type 0 where
  pub domain : Option Text
  pub cert_id : Option (Option Text)

-- the SDK's answer to ListCname
pub record ListCnameResult : Type 0 where
  pub owner : Option Text
  pub cnames : List SdkCname

abbrev cert_ref_of : Option (Option Text) → Text
cert_ref_of none = []
cert_ref_of (some id) = string_value id

-- the loop of `cnameFromList`
unfoldable pub find_cname : Text → Text → List SdkCname → Res Error Cname
find_cname owner domain [] = err (
    make_cloud ErrClass.not_found (codes "ListCname") (codes "CnameNotFound")
      (plain (codes "no such domain")))
find_cname owner domain (c ∷ cs) =
    if not (equal_fold (string_value c.domain) domain)
    then find_cname owner domain cs
    else ok (record {
      domain = string_value c.domain;
      cert_ref = cert_ref_of c.cert_id;
      account_id = owner;
    })

-- `cnameFromList`
unfoldable pub cname_from_list : Option ListCnameResult → Text → Res Error Cname
cname_from_list none domain = err (
    make_cloud ErrClass.retryable (codes "ListCname") (codes "EmptyResponse")
      (plain (codes "no answer")))
cname_from_list (some res) domain = find_cname (string_value res.owner) domain res.cnames
