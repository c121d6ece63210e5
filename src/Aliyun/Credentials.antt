-- ===== src/Aliyun/Credentials.antt =====
-- pkg/aliyun/credentials.go. The data of a Secret is a function from its keys; a key that is missing
-- has the empty text.
pub mod Accepted
use le_to_alicloud.Prelude.{
  Bool, true, false, ◌&&◌, ◌||◌, not, Text, codes, is_empty, trim_space, if◌then◌else◌, Res, ok,
  err,
}
use le_to_alicloud.Aliyun.Errors.{Error, plain}

pub record Credentials : Type 0 where
  pub access_key_id : Text
  pub access_key_secret : Text
  pub security_token : Text
  pub role_arn : Text
  pub oidc_provider_arn : Text
  pub oidc_token_file_path : Text

-- `isOIDC`
abbrev pub is_oidc : Credentials → Bool
is_oidc c =
    not (is_empty c.role_arn)
    && not (is_empty c.oidc_provider_arn)
    && not (is_empty c.oidc_token_file_path)

abbrev read_credentials : (Text → Text) → Credentials
read_credentials data_ = record {
  access_key_id = trim_space (data_ (codes "accessKeyId"));
  access_key_secret = trim_space (data_ (codes "accessKeySecret"));
  security_token = trim_space (data_ (codes "securityToken"));
  role_arn = trim_space (data_ (codes "roleArn"));
  oidc_provider_arn = trim_space (data_ (codes "oidcProviderArn"));
  oidc_token_file_path = trim_space (data_ (codes "oidcTokenFilePath"));
}

-- the switch of `CredentialsFromSecret`
unfoldable pub check_credentials : Credentials → Res Error Credentials
check_credentials c =
    if is_oidc c
    then ok c
    else (if not (is_empty c.access_key_id) && not (is_empty c.access_key_secret)
        then ok c
        else (if not (is_empty c.access_key_id) || not (is_empty c.access_key_secret)
            then err (plain (codes "half an access key"))
            else err (plain (codes "no credentials"))))

-- `CredentialsFromSecret`
unfoldable pub credentials_from_secret : (Text → Text) → Res Error Credentials
credentials_from_secret data_ = check_credentials (read_credentials data_)

-- `LimiterKey`
pub limiter_key : Credentials → Text
limiter_key c = if is_oidc c then c.role_arn else c.access_key_id

pub data CredentialType : Type 0 where
  oidc_role_arn sts access_key : CredentialType

-- the type that `Build` asks the credentials library for
unfoldable pub credential_type : Credentials → CredentialType
credential_type c =
    if is_oidc c
    then oidc_role_arn
    else (if not (is_empty c.security_token) then sts else access_key)
