-- ===== src/Scenarios/Accounts.antt =====
-- Credentials and factories, the indexes of bindings, and what a clean up leaves.
use le_to_alicloud.Aliyun.Fake.Queue.{pop}
use le_to_alicloud.Controller.World.{is_api_not_found}
use le_to_alicloud.Prelude.{
  ◌≡◌, refl, ℕ, Option, none, some, [], ◌∷◌, Text, codes, Res, ok, err, text_eq, if◌then◌else◌,
  lookup, store, trim_space, equal_fold, split_comma, to_upper,
}
use le_to_alicloud.Api.Conditions.{Reason}
use le_to_alicloud.Api.Binding.{unbind, target_key}
use le_to_alicloud.Aliyun.Errors.{Error, api_not_found, as_credentials}
use le_to_alicloud.Aliyun.Credentials.{check_credentials, credentials_from_secret}
use le_to_alicloud.Aliyun.Fake.Cas.{Cert, delete, delete_stored, without_cert, without_token_of}
use le_to_alicloud.Aliyun.Fake.Fc3.{
  FakeFc3, add_domain, fake_fc3_client, commit, custom_domain_of, get_custom_domain,
  update_custom_domain, update_stored, updated_domain, validate_update,
}
use le_to_alicloud.Aliyun.Sdk.{find_cname, cname_from_list}
use le_to_alicloud.Provider.Interface.{fc3_client, get, register}
use le_to_alicloud.Provider.Fc3.{
  fc3_cleanup, fc3_unbind, cleanup_input, is_https_only, fc3_provider, fc3_client_of,
  split_protocol,
}
use le_to_alicloud.Aliyun.Cache.{identity, get_or_build}
use le_to_alicloud.Controller.Binding.Identity.{target_of}
use le_to_alicloud.Controller.Factories.{
  CredentialsSecret, credentials_secret_name_for, read_credentials_secret, cas_key, provider_key,
  cas_factory, client_for, new_provider_factory,
}
use le_to_alicloud.Controller.Indexes.{binding_certificate_index, binding_target_index}
use le_to_alicloud.Scenarios.Toy.{toy_crypto}
use le_to_alicloud.Scenarios.Fakes.{fc3_binding, issued_ac, test_target, test_domain, test_fc3}

abbrev half_key : Text → Text
half_key name = if text_eq name (codes "accessKeyId") then codes "AK" else []

abbrev whole_key : Text → Text
whole_key name =
    if text_eq name (codes "accessKeyId")
    then codes " AK"
    else (if text_eq name (codes "accessKeySecret") then codes "SK " else [])

abbrev account : CredentialsSecret
account = record {
  namespace = codes "prod";
  name = codes "aliyun";
  resource_version = codes "1";
  data_ = whole_key;
}

-- The error that a factory answers names the reason for the status.
abbrev reason_of_error : {A : Type 0} → Res Error A → Option Reason
reason_of_error (ok _) = none
reason_of_error (err e) = as_credentials e

new_provider_factory_run :
    (new_provider_factory
      (fc3_provider toy_crypto ∷ [])
      (λ k c. ok (fc3_client fake_fc3_client))
      (λ name. ok account)
      fc3_binding
      (some issued_ac)
      []).0
    ≡ ok (fc3_provider toy_crypto, fc3_client fake_fc3_client)
unfolding new_provider_factory client_for provider_key credentials_secret_name_for
    read_credentials_secret credentials_from_secret text_eq trim_space target_of get fc3_provider
    check_credentials get_or_build identity lookup
new_provider_factory_run = refl

cas_factory-missing :
    reason_of_error {A = ℕ} (cas_factory (λ k c. ok 1) issued_ac (err api_not_found) []).0
    ≡ some Reason.credentials_not_found
unfolding cas_factory read_credentials_secret cas_key is_api_not_found as_credentials
cas_factory-missing = refl

cas_factory-half :
    reason_of_error {A = ℕ}
      (cas_factory (λ k c. ok 1) issued_ac (ok (record account { data_ = half_key })) []).0
    ≡ some Reason.credentials_invalid
unfolding cas_factory read_credentials_secret cas_key credentials_from_secret check_credentials
    text_eq trim_space as_credentials
cas_factory-half = refl

indexes_run :
    (binding_certificate_index fc3_binding ≡ codes "web" ∷ [])
    × (binding_target_index fc3_binding ≡ target_key fc3_binding ∷ [])
unfolding binding_certificate_index binding_target_index target_key text_eq
indexes_run = (refl, refl)

-- A domain with HTTPS only loses its certificate and goes back to HTTP.
fc3_cleanup-https_only :
    lookup
      (codes "www.example.com")
      (fc3_cleanup test_target (fc3_client fake_fc3_client) unbind (
        add_domain
          (record test_domain { protocol = codes "https"; cert_pem = codes "pem" })
          test_fc3)).1.domains
    ≡ some test_domain
unfolding fc3_cleanup fc3_unbind cleanup_input is_https_only add_domain lookup fc3_client_of
    get_custom_domain pop store text_eq update_custom_domain update_stored validate_update
    split_protocol split_comma custom_domain_of to_upper trim_space commit updated_domain
fc3_cleanup-https_only = refl

abbrev test_cert : Cert
test_cert = record {
  id = 2;
  name = codes "web_0123abcd";
  cert_pem = [];
  key_pem = [];
  token = codes "t2";
}

-- A delete forgets the certificate and its token.
delete-forgets :
    (delete 1 [] (record {
      next_id = 2;
      certs = test_cert ∷ record test_cert { id = 1; token = codes "t1" } ∷ [];
      by_token = (codes "t1", 1) ∷ (codes "t2", 2) ∷ [];
      upload_errs = [];
      delete_errs = [];
      fail_after_commit = none;
    })).1.by_token
    ≡ (codes "t2", 2) ∷ []
unfolding delete delete_stored without_cert without_token_of pop
delete-forgets = refl

cname_from_list-other_case :
    cname_from_list
      (some (record {
        owner = some (codes "1234");
        cnames =
            record {
              domain = some (codes "WWW.example.com");
              cert_id = some (some (codes "42-cn"));
            }
            ∷ [];
      }))
      (codes "www.example.com")
    ≡ ok (record {
      domain = codes "WWW.example.com";
      cert_ref = codes "42-cn";
      account_id = codes "1234";
    })
unfolding cname_from_list find_cname equal_fold
cname_from_list-other_case = refl

register-twice :
    register (fc3_provider toy_crypto) (fc3_provider {W = FakeFc3} toy_crypto ∷ []) ≡ none
unfolding register get fc3_provider text_eq
register-twice = refl
