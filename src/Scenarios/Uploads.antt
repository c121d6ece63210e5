-- ===== src/Scenarios/Uploads.antt =====
-- Uploads, probes and the material in the world of the scenarios.
use le_to_alicloud.Prelude.{
  ◌≡◌, ◌⊎◌, ◌↔◌, refl, true, false, ◌&&◌, none, some, [], ◌∷◌, ok, codes, All, text_eq,
}
use le_to_alicloud.Api.Conditions.{ready, issued, uploaded}
use le_to_alicloud.Api.Certificate.{PendingUpload, upload_enabled}
use le_to_alicloud.Pki.Bundle.{dns_names, is_self_signed, key_pem}
use le_to_alicloud.Pki.Sans.Missing.{covered_by}
use le_to_alicloud.Controller.Secrets.{secret_name_guard_holding}
use le_to_alicloud.Controller.World.Traces.{uploads}
use le_to_alicloud.Controller.Certificate.Status.{cond_true, aggregate_ready, cert_issuing_since}
use le_to_alicloud.Controller.Certificate.Status.Ready.{aggregate_ready_iff}
use le_to_alicloud.Controller.Certificate.Upload.{
  ensure_uploaded, new_generation, adopt_upload_state,
}
use le_to_alicloud.Controller.Certificate.Upload.WriteAhead.{
  Stored, AtMostOne, ensure_uploaded-uploads,
}
use le_to_alicloud.Controller.Certificate.Upload.Outcome.{Outcome, ensure_uploaded-Outcome}
use le_to_alicloud.Controller.Certificate.Upload.Retry.{
  ensure_uploaded-retry, ensure_uploaded_succeeds,
}
use le_to_alicloud.Controller.Certificate.Material.{required_names, validate_material}
use le_to_alicloud.Controller.Certificate.Material.Valid.{validate_material_iff}
use le_to_alicloud.Controller.Certificate.Probe.{probe_cas}
use le_to_alicloud.Controller.Certificate.Probe.Effect.{Probed, probe_cas-Probed}
use le_to_alicloud.Scenarios.Data.{
  test_env, test_meta, test_bundle, test_round, test_ac, announced_ac, test_pending, test_cm,
}

ensure_uploaded-uploads_example :
    (uploads (ensure_uploaded test_env test_bundle test_round).1.trace ≡ [])
    ⊎ ((p : PendingUpload) × Stored test_env test_bundle test_round p
        × (p.fingerprint ≡ test_bundle.fingerprint)
        × (uploads (ensure_uploaded test_env test_bundle test_round).1.trace
            ≡ (p.cas_name, p.client_token) ∷ []))
ensure_uploaded-uploads_example = ensure_uploaded-uploads test_env test_bundle test_round

ensure_uploaded-Outcome_example :
    Outcome test_env test_bundle test_round
      (ensure_uploaded test_env test_bundle test_round).0
      (ensure_uploaded test_env test_bundle test_round).1
ensure_uploaded-Outcome_example = ensure_uploaded-Outcome test_env test_bundle test_round

ensure_uploaded-retry_example :
    AtMostOne test_env test_bundle test_pending []
      (ensure_uploaded test_env test_bundle test_round).1.trace
ensure_uploaded-retry_example =
    ensure_uploaded-retry test_env test_bundle announced_ac test_pending test_round refl refl refl

ensure_uploaded_succeeds_example :
    ((ensure_uploaded test_env test_bundle test_round).0 ≡ ok true)
    × ((ensure_uploaded test_env test_bundle test_round).1.ac.status.current
        ≡ some (record (new_generation test_bundle 100000000000000000) {
          cert_id = some 42;
          cas_name = codes "web_0123abcd";
        }))
unfolding text_eq adopt_upload_state key_pem
ensure_uploaded_succeeds_example =
    ensure_uploaded_succeeds test_env test_bundle announced_ac test_pending test_round _ 42 refl
      refl refl refl refl refl refl refl refl

probe_cas-Probed_example :
    Probed test_env
      (codes "www.example.com")
      test_round
      (probe_cas test_env (codes "www.example.com") test_round).0
      (probe_cas test_env (codes "www.example.com") test_round).1
probe_cas-Probed_example = probe_cas-Probed test_env (codes "www.example.com") test_round

validate_material_iff_example : (validate_material test_env test_bundle test_ac test_cm ≡ none) ↔ (
    ((cert_issuing_since test_cm).0 && is_self_signed test_env.crypto test_bundle ≡ false)
    × All
        (λ r. covered_by test_env.to_lower (dns_names test_bundle) r ≡ true)
        (required_names test_ac))
validate_material_iff_example = validate_material_iff test_env test_bundle test_ac test_cm

aggregate_ready_iff_example :
    (cond_true test_meta (aggregate_ready test_meta test_ac) ready ≡ true) ↔ (
      (secret_name_guard_holding test_ac ≡ false)
      × (cond_true test_meta test_ac issued ≡ true)
      × ((upload_enabled test_ac.spec.aliyun ≡ false)
          ⊎ (cond_true test_meta test_ac uploaded ≡ true)))
aggregate_ready_iff_example = aggregate_ready_iff test_meta test_ac
