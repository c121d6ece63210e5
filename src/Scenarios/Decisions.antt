-- ===== src/Scenarios/Decisions.antt =====
-- Small decisions of the two controllers on concrete values.
use le_to_alicloud.Controller.Certificate.Status.{cond_true}
use le_to_alicloud.Prelude.{◌≡◌, refl, true, false, none, some, [], codes, ok, text_eq}
use le_to_alicloud.Api.Conditions.{Reason, first_of_type}
use le_to_alicloud.Api.Binding.{target_key}
use le_to_alicloud.Aliyun.Errors.{Error, ProviderCode, plain, api_not_found, as_provider}
use le_to_alicloud.Aliyun.Credentials.{sts, credential_type}
use le_to_alicloud.Provider.Errors.{provider_error}
use le_to_alicloud.Controller.Binding.World.{result_success, result_throttled, result_error}
use le_to_alicloud.Controller.Binding.Conflict.{arbitrate, pick_from, pick_winner}
use le_to_alicloud.Controller.Binding.Apply.{binding_apply_result, apply_failure_reason}
use le_to_alicloud.Controller.Binding.Deletion.{provider_err_class}
use le_to_alicloud.Controller.Binding.Observe.{has_drifted, note_observe_failed}
use le_to_alicloud.Controller.Binding.Reconcile.{cert_issued}
use le_to_alicloud.Controller.Binding.Status.{lagging, target_region}
use le_to_alicloud.Scenarios.Data.{test_meta}
use le_to_alicloud.Scenarios.Fakes.{fc3_binding, issued_ac, uploaded_ac}

abbrev throttled_write : Error
throttled_write = provider_error ProviderCode.throttled true Reason.throttled (plain [])

binding_apply_result_run :
    (binding_apply_result none ≡ result_success)
    × (binding_apply_result (some throttled_write) ≡ result_throttled)
    × (binding_apply_result (some api_not_found) ≡ result_error)
unfolding binding_apply_result as_provider
binding_apply_result_run = (refl, refl, refl)

apply_failure_reason_run :
    (apply_failure_reason none ≡ Reason.apply_failed)
    × (provider_err_class throttled_write ≡ ProviderCode.throttled)
    × (provider_err_class api_not_found ≡ ProviderCode.permanent)
unfolding apply_failure_reason provider_err_class as_provider
apply_failure_reason_run = (refl, refl, refl)

-- Where the API server lists no binding, the binding itself wins.
arbitrate_alone : arbitrate (λ key. ok []) fc3_binding ≡ ok fc3_binding
unfolding arbitrate target_key text_eq pick_winner pick_from
arbitrate_alone = refl

has_drifted_run :
    (has_drifted
        (record { want = codes "a"; current = codes "b"; applied = codes "c"; by_ref = false })
      ≡ true)
    × (has_drifted (record { want = codes "a"; current = []; applied = codes "c"; by_ref = false })
        ≡ false)
unfolding has_drifted text_eq
has_drifted_run = (refl, refl)

note_observe_failed-absent : note_observe_failed fc3_binding ≡ none
unfolding note_observe_failed
note_observe_failed-absent = refl

cert_issued_run :
    (cert_issued test_meta issued_ac ≡ true) × (cert_issued test_meta uploaded_ac ≡ false)
unfolding cert_issued cond_true first_of_type
cert_issued_run = (refl, refl)

-- The generation of the certificate is not the one that the binding applied.
lagging_run :
    (lagging fc3_binding none ≡ none)
    × (lagging fc3_binding (some uploaded_ac) ≡ uploaded_ac.status.current)
unfolding lagging text_eq
lagging_run = (refl, refl)

target_region_run : target_region fc3_binding ≡ codes "cn-hangzhou"
unfolding target_region
target_region_run = refl

credential_type_run :
    credential_type (record {
      access_key_id = codes "AK";
      access_key_secret = codes "SK";
      security_token = codes "token";
      role_arn = codes "role";
      oidc_provider_arn = [];
      oidc_token_file_path = [];
    })
    ≡ sts
unfolding credential_type
credential_type_run = refl
