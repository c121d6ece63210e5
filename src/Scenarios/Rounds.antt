-- ===== src/Scenarios/Rounds.antt =====
-- Whole rounds of the reconciler.
use le_to_alicloud.Aliyun.Errors.{
  ErrClass, deadline_exceeded, credentials, as_credentials, as_cloud, class_of,
}
use le_to_alicloud.Prelude.{codes, ◌≡◌, refl, false, some, none, [], ◌∷◌, ok, pos, text_eq}
use le_to_alicloud.Api.Conditions.{Reason, first_of_type}
use le_to_alicloud.Controller.World.{Env, Round, update_ac, is_api_not_found}
use le_to_alicloud.Controller.World.Traces.{syncs, uploads, finishing}
use le_to_alicloud.Controller.Issuer.{resolve_issuer_ref, normalize_issuer_ref}
use le_to_alicloud.Controller.Secrets.{
  Secret, secret_owned_by_us, secret_name_for, secret_name_guard_holding, desired_certificate_spec,
}
use le_to_alicloud.Controller.Certificate.Status.{
  set_uploaded_condition, aggregate_ready, set_condition, cond_true, cert_ready, cert_issuing_since,
  mirror_issuance,
}
use le_to_alicloud.Controller.Certificate.Retention.{
  reclaim_old_generations, live_bindings_for, referring,
}
use le_to_alicloud.Controller.Certificate.Deletion.{
  active_binding_names, remaining_cert_ids, delete_certificate, delete_generation, cleanup_history,
  cleanup_current, cleanup_pending_upload, cleanup_cas, start_cleanup, remove_secret,
  remove_finalizer, remove_certificate, clean_up, reconcile_delete,
}
use le_to_alicloud.Controller.Certificate.Material.{bundle_of, load_bundle, load_material}
use le_to_alicloud.Controller.Certificate.Reconcile.{
  with_bundle, after_upload, credentials_retry, by_class, handle_cloud_error,
  handle_non_fatal_cloud_error, detect_issuer_divergence, issuer_diverged, renames_secret,
  without_bundle, reconcile_issued,
}
use le_to_alicloud.Controller.Certificate.Reconcile.Steps.{
  secret_name_conflict, note_stall, wait_for_certificate, synced, sync_certificate, guarded,
  with_issuer, reconcile_live, add_finalizer, reconcile,
}
use le_to_alicloud.Api.Certificate.{keep_last_or_default}
use le_to_alicloud.Controller.Certificate.Upload.{ensure_uploaded}
use le_to_alicloud.Controller.Certificate.Probe.{probe_cas, to_probe}
use le_to_alicloud.Controller.Certificate.Reconcile.Guard.{guarded-syncs}
use le_to_alicloud.Scenarios.Data.{
  old_generation, test_bundle, test_env, test_round, test_ac, test_cm,
}

-- a CR without the finalizer
abbrev new_round : Round
new_round = record test_round { ac = record test_ac { finalizer = false } }

reconcile_new : (reconcile test_env new_round).1.ac ≡ test_ac
unfolding reconcile add_finalizer
reconcile_new = refl

-- The Certificate was just made: nothing to do before cert-manager has issued.
reconcile_waits : (reconcile test_env test_round).0 ≡ ok none
unfolding reconcile reconcile_live with_issuer detect_issuer_divergence issuer_diverged guarded
    renames_secret secret_name_conflict sync_certificate synced note_stall wait_for_certificate
    resolve_issuer_ref normalize_issuer_ref cert_ready cert_issuing_since secret_name_guard_holding
    secret_name_for desired_certificate_spec mirror_issuance is_api_not_found aggregate_ready
    set_condition cond_true text_eq first_of_type
reconcile_waits = refl

-- The Secret is missing: the round comes back after the resync interval.
reconcile_issued_waits :
    (reconcile_issued test_env test_cm false test_round).0 ≡ ok (some (pos 3600000000000))
unfolding reconcile_issued load_material load_bundle bundle_of without_bundle is_api_not_found
reconcile_issued_waits = refl

-- no binding refers to the CR
abbrev lonely : Env
lonely = record test_env { on_list_bindings = λ t. ok [] }

-- The deletion removes both certificates of the cloud, and the finalizer.
reconcile_delete-lonely : finishing (reconcile_delete lonely test_round).1.trace ≡ update_ac ∷ []
unfolding reconcile_delete live_bindings_for referring active_binding_names clean_up start_cleanup
    cleanup_cas cleanup_history cleanup_current cleanup_pending_upload delete_generation
    delete_certificate remaining_cert_ids remove_certificate remove_finalizer remove_secret
    is_api_not_found
reconcile_delete-lonely = refl

-- Denied access waits five minutes, as missing credentials do; a cleanup that cannot succeed waits
-- for the next round.
by_class_auth :
    (by_class test_env ErrClass.auth deadline_exceeded test_round).0 ≡ ok (some credentials_retry)
unfolding by_class
by_class_auth = refl

handle_cloud_error_credentials :
    (handle_cloud_error test_env
      (credentials Reason.credentials_not_found deadline_exceeded)
      test_round).0
    ≡ ok (some credentials_retry)
unfolding handle_cloud_error as_credentials
handle_cloud_error_credentials = refl

handle_non_fatal_plain :
    (handle_non_fatal_cloud_error test_env deadline_exceeded (codes "ReclaimFailed") test_round).0
    ≡ ok (some (pos 3600000000000))
unfolding handle_non_fatal_cloud_error class_of as_cloud
handle_non_fatal_plain = refl

-- a CR whose current generation is the certificate in the Secret, with nothing in its history
abbrev settled : Round
settled = record test_round {
  ac = record test_ac {
    status = record test_ac.status {
      current = some (record old_generation { fingerprint = codes "0123abcdder"; cert_id = none });
      history = [];
    };
  };
}

with_bundle-settled :
    ((with_bundle test_env false test_bundle settled).0 ≡ ok (some (pos 3600000000000)))
    × (uploads (with_bundle test_env false test_bundle settled).1.trace ≡ [])
unfolding with_bundle after_upload probe_cas to_probe ensure_uploaded reclaim_old_generations
    text_eq set_uploaded_condition set_condition aggregate_ready keep_last_or_default
with_bundle-settled = (refl, refl)

-- the Secret web-tls belongs to another Certificate
abbrev foreign_secret : Secret
foreign_secret = record {
  name = codes "web-tls";
  certificate_name = codes "mail";
  tls_crt = [];
  tls_key = [];
}

abbrev occupied_env : Env
occupied_env = record test_env { on_get_secret = λ t name. ok foreign_secret }

guarded-syncs_example :
    syncs (guarded occupied_env none test_cm.spec.issuer_ref test_round).1.trace ≡ []
unfolding renames_secret secret_owned_by_us text_eq
guarded-syncs_example =
    guarded-syncs occupied_env none test_cm.spec.issuer_ref test_round foreign_secret refl refl refl
