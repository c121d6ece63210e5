-- ===== src/Aliyun/Fake/Fc3.antt =====
-- pkg/aliyun/fake/fc3.go: Function Compute in memory. A counter of calls is the list of the domains
-- called, newest first. A body is never nil here.
use le_to_alicloud.Prelude.{
  lookup, store, Option, none, some, List, [], ◌∷◌, Text, codes, is_empty, if◌then◌else◌, Res, ok,
  err,
}
use le_to_alicloud.Run.{Run}
use le_to_alicloud.Aliyun.Errors.{Error, ErrClass, make_cloud, plain}
use le_to_alicloud.Aliyun.Clients.{
  CertConfig, EchoPayload, CustomDomain, UpdateCustomDomainInput, Fc3Client,
}
use le_to_alicloud.Aliyun.Fake.Queue.{pop}

pub record Domain : Type 0 where
  pub domain_name : Text
  pub protocol : Text
  pub cert_name : Text
  pub cert_pem : Text
  pub key_pem : Text
  pub echo : EchoPayload

pub record FakeFc3 : Type 0 where
  pub account_id : Text
  pub domains : List (Text × Domain)
  pub get_errs : List Error
  pub update_errs : List Error
  pub always_update_err : Option Error
  pub fail_after_commit : Option Error
  pub get_calls : List Text
  pub update_calls : List Text

-- `ErrDomainNotFound`
abbrev pub err_domain_not_found : Error
err_domain_not_found =
    make_cloud ErrClass.not_found (codes "GetCustomDomain") (codes "DomainNameNotFound")
      (plain (codes "custom domain not found"))

-- `AddDomain`
unfoldable pub add_domain : Domain → FakeFc3 → FakeFc3
add_domain d f = record f { domains = store d.domain_name d f.domains }

-- the answer to a read of a domain
unfoldable pub custom_domain_of : Text → Domain → CustomDomain
custom_domain_of account d = record {
  account_id = account;
  domain_name = d.domain_name;
  protocol = d.protocol;
  cert_name = d.cert_name;
  certificate_pem = d.cert_pem;
  echo = record { payload = d.echo };
}

abbrev found_or_error : Text → Option Domain → Res Error CustomDomain
found_or_error account none = err err_domain_not_found
found_or_error account (some d) = ok (custom_domain_of account d)

-- `GetCustomDomain`
unfoldable pub get_custom_domain : Text → Run Error FakeFc3 CustomDomain
get_custom_domain domain f =
    let (failure, rest) = pop f.get_errs in
    let f' = record f { get_calls = domain ∷ f.get_calls; get_errs = rest } in
    elim failure [
      | some e ↦ (err e, f')
      | none ↦ (found_or_error f.account_id (lookup domain f.domains), f')
    ]

-- `validateUpdate`
unfoldable pub validate_update : UpdateCustomDomainInput → Option Error
validate_update in_ =
    if is_empty in_.protocol
    then some (
        make_cloud ErrClass.permanent (codes "UpdateCustomDomain") (codes "ProtocolRequired")
          (plain (codes "no protocol")))
    else none

abbrev with_cert : Option CertConfig → Domain → Domain
with_cert none d = d
with_cert (some c) d = record d {
  cert_name = c.cert_name;
  cert_pem = c.cert_pem;
  key_pem = c.key_pem;
}

-- the domain after an update
unfoldable pub updated_domain : UpdateCustomDomainInput → Domain → Domain
updated_domain in_ d =
    let d' = record d { protocol = in_.protocol; echo = in_.echo.payload } in
    if in_.clear_cert
    then record d' { cert_name = []; cert_pem = []; key_pem = [] }
    else with_cert in_.cert_config d'

-- the update of a domain that is there, which may fail after it was made
unfoldable pub commit : Text → UpdateCustomDomainInput → Domain → Run Error FakeFc3 Unit
commit domain in_ d f =
    let f' = record f { domains = store domain (updated_domain in_ d) f.domains } in
    elim f.fail_after_commit [
      | none ↦ (ok tt, f')
      | some e ↦ (err e, record f' { fail_after_commit = none })
    ]

-- the update after the errors that were asked for
unfoldable pub update_stored : Text → UpdateCustomDomainInput → Run Error FakeFc3 Unit
update_stored domain in_ f = elim (lookup domain f.domains) [
  | none ↦ (err err_domain_not_found, f)
  | some d ↦ elim (validate_update in_) [ some e ↦ (err e, f) | none ↦ commit domain in_ d f ]
]

-- `UpdateCustomDomain`
unfoldable pub update_custom_domain : Text → UpdateCustomDomainInput → Run Error FakeFc3 Unit
update_custom_domain domain in_ f =
    let f1 = record f { update_calls = domain ∷ f.update_calls } in
    elim f.always_update_err [
      | some e ↦ (err e, f1)
      | none ↦
          let (failure, rest) = pop f1.update_errs in
          let f2 = record f1 { update_errs = rest } in
          elim failure [ some e ↦ (err e, f2) | none ↦ update_stored domain in_ f2 ]
    ]

abbrev pub fake_fc3_client : Fc3Client FakeFc3
fake_fc3_client = record {
  get_custom_domain = get_custom_domain;
  update_custom_domain = update_custom_domain;
}
