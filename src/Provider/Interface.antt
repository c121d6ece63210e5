-- ===== src/Provider/Interface.antt =====
-- The rest of pkg/provider/provider.go, and registry.go: targets, and the interface of a provider.
-- `W` is the state of the cloud. The deletion policies are those of the CRD.
use le_to_alicloud.Prelude.{
  Bool, Option, none, some, List, [], ◌∷◌, Text, text_eq, is_some, if◌then◌else◌,
}
use le_to_alicloud.Run.{Run}
use le_to_alicloud.Api.Binding.{DeletionPolicy, Fc3CustomDomainTarget, OssCustomDomainTarget}
use le_to_alicloud.Aliyun.Errors.{Error}
use le_to_alicloud.Aliyun.Clients.{Fc3Client, OssClient}
use le_to_alicloud.Provider.Types.{CertMaterial, Capabilities}

-- the `any` of `Target.Spec`
pub data TargetSpec : Type 0 where
  fc3_spec : Fc3CustomDomainTarget → TargetSpec
  oss_spec : OssCustomDomainTarget → TargetSpec

pub record Target : Type 0 where
  pub type : Text
  pub region : Text
  pub identifier : Text
  pub spec : TargetSpec

-- The empty text stands for no certificate.
pub record ObservedState : Type 0 where
  pub current_fingerprint : Text
  pub current_cert_ref : Text
  pub protocol : Text
  pub account_id : Text

pub record ApplyOptions : Type 0 where
  pub ensure_https_protocol : Bool
  pub previous_fingerprint : Text

-- the `any` of `Client`
pub data Client (W : Type 0) : Type 0 where
  fc3_client : Fc3Client W → Client W
  oss_client : OssClient W → Client W
  other_client : Client W

pub record Provider (W : Type 0) : Type 0 where
  pub name : Text
  pub capabilities : Capabilities
  pub observe : Target → Client W → Run Error W ObservedState
  pub apply : Target → Client W → CertMaterial → ApplyOptions → Run Error W Unit
  pub cleanup : Target → Client W → DeletionPolicy → Run Error W Unit

module _ {W : Type 0} where
  -- `Get` of the registry, whose providers have different names
  unfoldable pub get : List (Provider W) → Text → Option (Provider W)
  get [] name = none
  get (p ∷ ps) name = if text_eq p.name name then some p else get ps name

  -- `Register`; `none` is the panic on a name that is there
  unfoldable pub register : Provider W → List (Provider W) → Option (List (Provider W))
  register p ps = if is_some (get ps p.name) then none else some (p ∷ ps)
