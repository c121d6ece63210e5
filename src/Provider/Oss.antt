-- ===== src/Provider/Oss.antt =====
-- pkg/provider/oss: the provider of the custom domains of a bucket, which refer to a certificate of
-- CAS.
pub mod RoundTrip
use le_to_alicloud.Prelude.{some, [], codes, is_empty, true, false, if◌then◌else◌, ok, err}
use le_to_alicloud.Run.{Run, pure, raise, attempt, ◌>>=◌}
use le_to_alicloud.Api.Conditions.{Reason}
use le_to_alicloud.Api.Binding.{
  DeletionPolicy, orphan, unbind, target_type_oss_custom_domain, OssCustomDomainTarget,
}
use le_to_alicloud.Aliyun.Errors.{Error, ProviderCode, plain}
use le_to_alicloud.Aliyun.Clients.{Cname, OssClient}
use le_to_alicloud.Provider.Types.{CertMaterial, Capabilities, cas_cert_ref}
use le_to_alicloud.Provider.Errors.{provider_error, to_provider_error, swallow_not_found}
use le_to_alicloud.Provider.Interface.{
  Target, TargetSpec, oss_spec, ObservedState, ApplyOptions, Client, oss_client, Provider,
}
use le_to_alicloud.Provider.Fc3.{translating, report}

-- `Provider.Capabilities`
abbrev pub oss_capabilities : Capabilities
oss_capabilities = record {
  references_cert_by_id = true;
  supports_protocol_switch = false;
  requires_cas_upload = true;
}

-- the state that `Observe` makes of the record
pub observed_cname : Cname → ObservedState
observed_cname cn = record {
  current_fingerprint = [];
  current_cert_ref = cn.cert_ref;
  protocol = [];
  account_id = cn.account_id;
}

module _ {W : Type 0} where
  -- `clientOf`
  unfoldable pub oss_client_of : Client W → Run Error W (OssClient W)
  oss_client_of (oss_client cl) = pure cl
  oss_client_of _ = raise (
      provider_error ProviderCode.invalid_client false Reason.apply_failed
        (plain (codes "not an OSSClient")))

  -- `specOf`
  unfoldable pub oss_spec_of : TargetSpec → Run Error W OssCustomDomainTarget
  oss_spec_of (oss_spec s) = pure s
  oss_spec_of _ = raise (
      provider_error ProviderCode.invalid_target false Reason.apply_failed
        (plain (codes "not an OSSCustomDomainTarget")))

  -- `Observe`
  pub oss_observe : Target → Client W → Run Error W ObservedState
  oss_observe t c = do
    cl ← oss_client_of c
    s ← oss_spec_of t.spec
    cn ← translating Reason.observe_failed (cl.get_cname s.bucket s.domain_name)
    pure (observed_cname cn)

  -- `Apply`
  unfoldable pub oss_apply : Target → Client W → CertMaterial → ApplyOptions → Run Error W Unit
  oss_apply t c m o = do
    cl ← oss_client_of c
    s ← oss_spec_of t.spec
    let ref = cas_cert_ref m
    if is_empty ref
        then raise (
            provider_error ProviderCode.permanent false Reason.apply_failed
              (plain (codes "no certId")))
        else translating Reason.apply_failed (cl.put_cname_cert s.bucket s.domain_name ref)

  -- `Cleanup`
  unfoldable pub oss_cleanup : Target → Client W → DeletionPolicy → Run Error W Unit
  oss_cleanup t c orphan = pure tt
  oss_cleanup t c unbind = do
    cl ← oss_client_of c
    s ← oss_spec_of t.spec
    r ← attempt (cl.delete_cname_cert s.bucket s.domain_name)
    elim r [
      | ok _ ↦ pure tt
      | err e ↦ report (swallow_not_found (to_provider_error (some e) Reason.cleanup_failed))
    ]

  unfoldable pub oss_provider : Provider W
  oss_provider = record {
    name = target_type_oss_custom_domain;
    capabilities = oss_capabilities;
    observe = oss_observe;
    apply = oss_apply;
    cleanup = oss_cleanup;
  }
