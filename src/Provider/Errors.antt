-- ===== src/Provider/Errors.antt =====
-- pkg/provider/internal/aliyunerr/errors.go: cloud errors become provider errors. The text that
-- names the operation is left out; it wraps the error.
pub mod Mapping
use le_to_alicloud.Prelude.{
  Bool, true, false, Option, none, some, Text, codes, has_prefix, if◌then◌else◌,
}
use le_to_alicloud.Api.Conditions.{Reason}
use le_to_alicloud.Aliyun.Errors.{
  Error, wrapped, from_provider, ErrClass, CloudError, ProviderCode, ProviderError, as_cloud,
  as_provider, class_of,
}

-- `provider.Errorf`
abbrev pub provider_error : ProviderCode → Bool → Reason → Error → Error
provider_error code retryable reason e =
    from_provider (record { code = code; retryable = retryable; reason = reason }) e

abbrev pub throttling : Option CloudError → Bool
throttling none = false
throttling (some c) = has_prefix c.code (codes "Throttling")

-- the branches of `ToProviderError` by the class of the error
abbrev pub provider_error_of : ErrClass → Error → Reason → Error
provider_error_of ErrClass.not_found e reason =
    provider_error ProviderCode.target_not_found false Reason.target_not_found e
provider_error_of ErrClass.auth e reason =
    provider_error ProviderCode.auth false Reason.credentials_invalid e
provider_error_of ErrClass.retryable e reason =
    if throttling (as_cloud e)
    then provider_error ProviderCode.throttled true Reason.throttled e
    else provider_error ProviderCode.retryable true reason e
provider_error_of ErrClass.permanent e reason = provider_error ProviderCode.permanent false reason e

abbrev pub translated : Error → Reason → Error
translated e reason = wrapped (provider_error_of (class_of e) e reason)

-- `ToProviderError`
pub to_provider_error : Option Error → Reason → Option Error
to_provider_error none reason = none
to_provider_error (some e) reason = some (translated e reason)

abbrev pub is_target_not_found : Option ProviderError → Bool
is_target_not_found none = false
is_target_not_found (some p) = elim p.code [ ProviderCode.target_not_found ↦ true | _ ↦ false ]

-- `SwallowNotFound`
pub swallow_not_found : Option Error → Option Error
swallow_not_found none = none
swallow_not_found (some e) = if is_target_not_found (as_provider e) then none else some e
