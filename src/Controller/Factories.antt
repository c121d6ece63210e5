-- ===== src/Controller/Factories.antt =====
-- internal/controller/provider_factory.go and cas_factory.go: credentials, and the clients that are
-- made with them. Reading the Secret and building a client are arguments: the answer of the API
-- server, and the constructor of the SDK's client for a key.
use le_to_alicloud.Prelude.{
  Option, none, some, List, [], Text, codes, is_empty, not, if◌then◌else◌, Res, ok, err,
}
use le_to_alicloud.Api.Conditions.{Reason}
use le_to_alicloud.Api.Certificate.{AliyunCertificate, effective_cas_region}
use le_to_alicloud.Api.Binding.{AliyunCertificateBinding}
use le_to_alicloud.Aliyun.Errors.{Error, plain, credentials}
use le_to_alicloud.Aliyun.Cache.{ClientKey, ClientCache, get_or_build}
use le_to_alicloud.Aliyun.Credentials.{Credentials, credentials_from_secret}
use le_to_alicloud.Provider.Interface.{Target, Client, Provider, get}
use le_to_alicloud.Controller.World.{is_api_not_found}
use le_to_alicloud.Controller.Binding.Identity.{target_of}

-- A Secret with credentials: its namespace, name and version, and its data.
pub record CredentialsSecret : Type 0 where
  pub namespace : Text
  pub name : Text
  pub resource_version : Text
  pub data_ : Text → Text

abbrev own_or_inherited : Text → Option AliyunCertificate → Text
own_or_inherited own none = own
own_or_inherited own (some ac) = if not (is_empty own) then own else ac.spec.aliyun.credentials_ref

abbrev text_or_empty : Option Text → Text
text_or_empty none = []
text_or_empty (some t) = t

-- `credentialsSecretNameFor`
unfoldable pub credentials_secret_name_for :
    AliyunCertificateBinding → Option AliyunCertificate → Text
credentials_secret_name_for b ac = own_or_inherited (text_or_empty b.spec.credentials_ref) ac

abbrev missing_secret : Error
missing_secret = credentials Reason.credentials_not_found (plain (codes "no credentials Secret"))

abbrev invalid_or : Res Error Credentials → Res Error Credentials
invalid_or (ok c) = ok c
invalid_or (err e) = err (credentials Reason.credentials_invalid e)

-- the Secret and the credentials that both factories read
unfoldable pub read_credentials_secret :
    Res Error CredentialsSecret → Res Error (CredentialsSecret × Credentials)
read_credentials_secret (err e) = if is_api_not_found e then err missing_secret else err e
read_credentials_secret (ok s) = elim (invalid_or (credentials_from_secret s.data_)) [
  | err e ↦ err e
  | ok c ↦ ok (s, c)
]

-- the key of the client of a CR
unfoldable pub cas_key : AliyunCertificate → CredentialsSecret → ClientKey
cas_key ac s = record {
  namespace = s.namespace;
  name = s.name;
  resource_version = s.resource_version;
  region = effective_cas_region ac.spec.aliyun;
  endpoint = ac.spec.aliyun.endpoint_override;
  resource_group_id = ac.spec.aliyun.resource_group_id;
  type = [];
}

-- the key of the client of a target
unfoldable pub provider_key : Target → CredentialsSecret → ClientKey
provider_key tg s = record {
  namespace = s.namespace;
  name = s.name;
  resource_version = s.resource_version;
  region = tg.region;
  endpoint = [];
  resource_group_id = [];
  type = tg.type;
}

module _ {T : Type 0} (build : ClientKey → Credentials → Res Error T) where
  -- the cached client for the credentials read
  abbrev cached :
      (CredentialsSecret → ClientKey)
      → Res Error (CredentialsSecret × Credentials)
      → ClientCache T
      → Res Error T × ClientCache T
  cached key (err e) cache = (err e, cache)
  cached key (ok (s, c)) cache = get_or_build (key s) (build (key s) c) cache

  -- `NewCASFactory`, on the answer to the read of the Secret that the CR names
  unfoldable pub cas_factory :
      AliyunCertificate → Res Error CredentialsSecret → ClientCache T → Res Error T × ClientCache T
  cas_factory ac secret cache = cached (cas_key ac) (read_credentials_secret secret) cache

  unfoldable pub client_for :
      Target → Res Error CredentialsSecret → ClientCache T → Res Error T × ClientCache T
  client_for tg secret cache = cached (provider_key tg) (read_credentials_secret secret) cache

module _ {W : Type 0} (registry : List (Provider W))
    (build : ClientKey → Credentials → Res Error (Client W)) where
  abbrev paired :
      Provider W
      → Res Error (Client W) × ClientCache (Client W)
      → Res Error (Provider W × Client W) × ClientCache (Client W)
  paired p (ok cl, cache) = (ok (p, cl), cache)
  paired p (err e, cache) = (err e, cache)

  -- `NewProviderFactory`; `read` is the read of a Secret of the binding's namespace
  unfoldable pub new_provider_factory :
      (Text → Res Error CredentialsSecret)
      → AliyunCertificateBinding
      → Option AliyunCertificate
      → ClientCache (Client W)
      → Res Error (Provider W × Client W) × ClientCache (Client W)
  new_provider_factory read b ac cache = elim (target_of b) [
    | err e ↦ (err e, cache)
    | ok tg ↦ elim (get registry tg.type) [
      | none ↦ (err (plain (codes "no provider")), cache)
      | some p ↦
          let name = credentials_secret_name_for b ac in
          if is_empty name
          then (err missing_secret, cache)
          else paired p (client_for build tg (read name) cache)
    ]
  ]
