-- ===== src/Aliyun/Errors.antt =====
-- pkg/aliyun/errors.go, and the error values that the controllers tell apart. A Go error is a
-- chain; `errors.As` and `errors.Is` walk it from the outside in.
pub mod Classes
use le_to_alicloud.Prelude.{
  ℕ, Bool, true, false, ◌||◌, Option, none, some, [], Text, codes, text_eq, has_prefix, contains,
  leb, ◌==◌, if◌then◌else◌,
}
use le_to_alicloud.Api.Conditions.{Reason}

pub data ErrClass : Type 0 where
  permanent retryable auth not_found : ErrClass

-- `aliyun.Error`, without the error that it wraps
pub record CloudError : Type 0 where
  pub class : ErrClass
  pub op : Text
  pub code : Text

-- the codes of pkg/provider/errors.go
pub data ProviderCode : Type 0 where
  target_not_found auth throttled retryable permanent invalid_client invalid_target : ProviderCode

pub record ProviderError : Type 0 where
  pub code : ProviderCode
  pub retryable : Bool
  pub reason : Reason

-- `plain` is an error made by the code, `api_not_found` the API server's NotFound, `api_error` any
-- other answer of it, `net_error` a `net.Error` with its `Timeout()`, and `dara_error` and
-- `tea_error` the SDK's two types with their Code and StatusCode.
pub data Error : Type 0 where
  plain : Text → Error
  api_not_found api_error deadline_exceeded : Error
  net_error : Bool → Error
  dara_error tea_error : Option Text → Option ℕ → Error
  wrapped : Error → Error
  cloud : CloudError → Error → Error
  credentials : Reason → Error → Error
  from_provider : ProviderError → Error → Error

-- `errors.As(err, &e)` for an `*aliyun.Error`
unfoldable pub as_cloud : Error → Option CloudError
as_cloud (wrapped e) = as_cloud e
as_cloud (cloud c _) = some c
as_cloud (credentials _ e) = as_cloud e
as_cloud (from_provider _ e) = as_cloud e
as_cloud _ = none

-- `errors.As` for a `*credentialsError`
unfoldable pub as_credentials : Error → Option Reason
as_credentials (wrapped e) = as_credentials e
as_credentials (cloud _ e) = as_credentials e
as_credentials (credentials r _) = some r
as_credentials (from_provider _ e) = as_credentials e
as_credentials _ = none

-- `provider.ErrorOf`
unfoldable pub as_provider : Error → Option ProviderError
as_provider (wrapped e) = as_provider e
as_provider (cloud _ e) = as_provider e
as_provider (credentials _ e) = as_provider e
as_provider (from_provider p _) = some p
as_provider _ = none

is_deadline : Error → Bool
is_deadline (wrapped e) = is_deadline e
is_deadline (cloud _ e) = is_deadline e
is_deadline (credentials _ e) = is_deadline e
is_deadline (from_provider _ e) = is_deadline e
is_deadline deadline_exceeded = true
is_deadline _ = false

pub as_net : Error → Option Bool
as_net (wrapped e) = as_net e
as_net (cloud _ e) = as_net e
as_net (credentials _ e) = as_net e
as_net (from_provider _ e) = as_net e
as_net (net_error timeout) = some timeout
as_net _ = none

as_dara : Error → Option (Option Text × Option ℕ)
as_dara (wrapped e) = as_dara e
as_dara (cloud _ e) = as_dara e
as_dara (credentials _ e) = as_dara e
as_dara (from_provider _ e) = as_dara e
as_dara (dara_error code status) = some (code, status)
as_dara _ = none

as_tea : Error → Option (Option Text × Option ℕ)
as_tea (wrapped e) = as_tea e
as_tea (cloud _ e) = as_tea e
as_tea (credentials _ e) = as_tea e
as_tea (from_provider _ e) = as_tea e
as_tea (tea_error code status) = some (code, status)
as_tea _ = none

abbrev pub class_or_permanent : Option CloudError → ErrClass
class_or_permanent none = ErrClass.permanent
class_or_permanent (some c) = c.class

-- `ClassOf`
unfoldable pub class_of : Error → ErrClass
class_of e = class_or_permanent (as_cloud e)

pub classify_code : Text → ℕ → ErrClass
classify_code code status =
    if has_prefix code (codes "Throttling")
      || text_eq code (codes "ServiceUnavailable")
      || text_eq code (codes "InternalError")
      || has_prefix code (codes "ServiceUnavailable")
      || status == 429
      || leb 500 status
    then ErrClass.retryable
    else (if has_prefix code (codes "InvalidAccessKeyId")
          || text_eq code (codes "SignatureDoesNotMatch")
          || has_prefix code (codes "Forbidden")
          || has_prefix code (codes "NoPermission")
          || text_eq code (codes "InvalidSecurityToken.Expired")
          || status == 401
          || status == 403
        then ErrClass.auth
        else (if contains code (codes "NotExist")
              || contains code (codes "NotFound")
              || status == 404
            then ErrClass.not_found
            else ErrClass.permanent))

abbrev text_or_empty : Option Text → Text
text_or_empty none = []
text_or_empty (some s) = s

abbrev status_or_zero : Option ℕ → ℕ
status_or_zero none = 0
status_or_zero (some n) = n

from_sdk_error : Text → Option Text → Option ℕ → Error
from_sdk_error op code_ptr status_ptr =
    let code = text_or_empty code_ptr in
    let class = classify_code code (status_or_zero status_ptr) in
    cloud (record { class = class; op = op; code = code }) (plain (codes "sdk error"))

abbrev pub make_cloud : ErrClass → Text → Text → Error → Error
make_cloud class op code e = cloud (record { class = class; op = op; code = code }) e

-- the branches of `Classify` after the test for an `*Error`
classify_new : Text → Error → Error
unfolding from_sdk_error is_deadline as_net as_dara as_tea
classify_new op e =
    if is_deadline e
    then make_cloud ErrClass.retryable op (codes "Timeout") e
    else elim (as_net e) [
      | some true ↦ make_cloud ErrClass.retryable op (codes "NetTimeout") e
      | some false ↦ make_cloud ErrClass.retryable op (codes "NetError") e
      | none ↦ elim (as_dara e) [
        | some (code, status) ↦ from_sdk_error op code status
        | none ↦ elim (as_tea e) [
          | some (code, status) ↦ from_sdk_error op code status
          | none ↦ make_cloud ErrClass.permanent op (codes "Unknown") e
        ]
      ]
    ]

-- `Classify`; a nil error stays nil
pub classify : Text → Option Error → Option Error
unfolding classify_new
classify op none = none
classify op (some e) = elim (as_cloud e) [ some _ ↦ some e | none ↦ some (classify_new op e) ]
