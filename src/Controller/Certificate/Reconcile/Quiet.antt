-- ===== src/Controller/Certificate/Reconcile/Quiet.antt =====
-- The steps of a round that follow the sync of the Certificate do not sync it again.
use le_to_alicloud.Prelude.{
  ◌≡◌, refl, Bool, true, false, Option, Text, ℤ, codes, arith, Res, ok, err, Res-cases, inl, inr,
}
use le_to_alicloud.Api.Conditions.{Reason, issued, is_true}
use le_to_alicloud.Aliyun.Errors.{Error, ErrClass, class_of}
use le_to_alicloud.Pki.Bundle.{Bundle, dns_names}
use le_to_alicloud.Controller.World.{Env, Round, Act, attempt, ◌>>=◌, ◌>>◌, CmCertificate}
use le_to_alicloud.Controller.World.Traces.{syncs}
use le_to_alicloud.Controller.Certificate.Status.{set_condition, set_uploaded_condition}
use le_to_alicloud.Controller.Certificate.Upload.{ensure_uploaded}
use le_to_alicloud.Controller.Certificate.Upload.Quiet.{ensure_uploaded-syncs}
use le_to_alicloud.Controller.Certificate.Retention.{reclaim_old_generations}
use le_to_alicloud.Controller.Certificate.Retention.Quiet.{reclaim_old_generations-syncs}
use le_to_alicloud.Controller.Certificate.Probe.{probe_cas, note_probe_failure}
use le_to_alicloud.Controller.Certificate.Probe.Quiet.{probe_cas-syncs}
use le_to_alicloud.Controller.Certificate.Material.{load_bundle, load_material}
use le_to_alicloud.Controller.Certificate.Reconcile.{
  first_or_empty, by_class, handle_cloud_error, handle_non_fatal_cloud_error, after_upload,
  store_probe, probed, with_bundle, without_bundle, reconcile_issued,
}
use le_to_alicloud.Controller.Certificate.Reconcile.Steps.{note_stall, wait_for_certificate}

module _ (env : Env) where
  by_class-syncs :
      (c : ErrClass) (e : Error) (s : Round) → syncs (by_class env c e s).1.trace ≡ syncs s.trace
  unfolding by_class
  by_class-syncs ErrClass.permanent e s = ground arith
  by_class-syncs ErrClass.retryable e s = ground arith
  by_class-syncs ErrClass.auth e s = ground arith
  by_class-syncs ErrClass.not_found e s = ground arith

  handle_cloud_error-syncs :
      (e : Error) (s : Round) → syncs (handle_cloud_error env e s).1.trace ≡ syncs s.trace
  unfolding handle_cloud_error
  handle_cloud_error-syncs e s = ground (arith, by_class-syncs (class_of e) e s)

  handle_non_fatal-syncs :
      (e : Error) (r : Text) (s : Round)
      → syncs (handle_non_fatal_cloud_error env e r s).1.trace ≡ syncs s.trace
  unfolding handle_non_fatal_cloud_error
  handle_non_fatal-syncs e r s = ground arith

  after_upload-syncs :
      (r : Res Error Bool) (s : Round) → syncs (after_upload env r s).1.trace ≡ syncs s.trace
  unfolding after_upload
  after_upload-syncs (err e) s = handle_cloud_error-syncs e s
  after_upload-syncs (ok changed) s =
      let s1 = record s { ac = set_uploaded_condition env.meta s.ac } in
      elim (Res-cases (reclaim_old_generations env s1).0) [
        | inl (a, fine) ↦ ground (arith, fine, reclaim_old_generations-syncs env s1)
        | inr (e, failed) ↦ ground (
          arith,
          failed,
          reclaim_old_generations-syncs env s1,
          handle_non_fatal-syncs e (codes "ReclaimFailed") (reclaim_old_generations env s1).1,
        )
      ]

  store_probe-syncs :
      (missing : Bool) (s : Round) → syncs (store_probe env missing s).1.trace ≡ syncs s.trace
  store_probe-syncs true s = ground arith
  store_probe-syncs false s = refl

  without_bundle-syncs :
      (r : Reason) (s : Round) → syncs (without_bundle env r s).1.trace ≡ syncs s.trace
  unfolding without_bundle
  without_bundle-syncs r s = ground arith

  probed-syncs : (r : Res Error Bool) (s : Round) → syncs (probed env r s).1.trace ≡ syncs s.trace
  probed-syncs (ok missing) s = refl
  probed-syncs (err e) s = refl

  -- the part of `with_bundle` after the probe
  abbrev upload_step : Bundle → Bool → Act (Option ℤ)
  upload_step b missing = do
    store_probe env missing
    changed ← attempt (ensure_uploaded env b)
    after_upload env changed

  upload_step-syncs :
      (b : Bundle) (missing : Bool) (s : Round)
      → syncs (upload_step b missing s).1.trace ≡ syncs s.trace
  upload_step-syncs b missing s =
      let s1 = (store_probe env missing s).1 in
      let s2 = (ensure_uploaded env b s1).1 in
      elim (Res-cases (store_probe env missing s).0) [
        | inr (e, failed) ↦ ground (arith, failed, store_probe-syncs missing s)
        | inl (u, fine) ↦ ground (
          arith,
          fine,
          store_probe-syncs missing s,
          ensure_uploaded-syncs env b s1,
          after_upload-syncs (ensure_uploaded env b s1).0 s2,
        )
      ]

  -- the part of `with_bundle` from the probe on
  abbrev probe_step : Bundle → Act (Option ℤ)
  probe_step b = do
    r ← attempt (probe_cas env (first_or_empty (dns_names b)))
    missing ← probed env r
    upload_step b missing

  probe_step-syncs : (b : Bundle) (s : Round) → syncs (probe_step b s).1.trace ≡ syncs s.trace
  probe_step-syncs b s =
      let primary = first_or_empty (dns_names b) in
      let s1 = (probe_cas env primary s).1 in
      elim (Res-cases (probe_cas env primary s).0) [
        | inl (missing, fine) ↦
            ground (arith, fine, probe_cas-syncs env primary s, upload_step-syncs b missing s1)
        | inr (e, failed) ↦ ground (
          arith,
          failed,
          probe_cas-syncs env primary s,
          upload_step-syncs b false (note_probe_failure env s1).1,
        )
      ]

  with_bundle-syncs :
      (stalled : Bool) (b : Bundle) (s : Round)
      → syncs (with_bundle env stalled b s).1.trace ≡ syncs s.trace
  unfolding with_bundle
  with_bundle-syncs true b s = probe_step-syncs b s
  with_bundle-syncs false b s =
      probe_step-syncs b
        (record s { ac = set_condition env.meta issued is_true Reason.is_ready s.ac })

  load_material-syncs :
      (cert : CmCertificate) (s : Round) → syncs (load_material env cert s).1.trace ≡ syncs s.trace
  unfolding load_material load_bundle
  load_material-syncs cert s = ground arith

  pub reconcile_issued-syncs :
      (cert : CmCertificate) (stalled : Bool) (s : Round)
      → syncs (reconcile_issued env cert stalled s).1.trace ≡ syncs s.trace
  unfolding reconcile_issued
  reconcile_issued-syncs cert stalled s =
      let s1 = (load_material env cert s).1 in
      elim (Res-cases (load_material env cert s).0) [
        | inr (e, failed) ↦ ground (arith, failed, load_material-syncs cert s)
        | inl (r, fine) ↦ elim (Res-cases r) [
          | inl (b, good) ↦
              ground (arith, fine, good, load_material-syncs cert s, with_bundle-syncs stalled b s1)
          | inr (bad, refused) ↦
              ground (arith, fine, refused, load_material-syncs cert s, without_bundle-syncs bad s1)
        ]
      ]

  pub note_stall-syncs :
      (cert : CmCertificate) (s : Round) → syncs (note_stall env cert s).1.trace ≡ syncs s.trace
  unfolding note_stall
  note_stall-syncs cert s = ground arith

  pub wait-syncs :
      (stalled : Bool) (s : Round)
      → syncs (wait_for_certificate env stalled s).1.trace ≡ syncs s.trace
  unfolding wait_for_certificate
  wait-syncs true s = ground arith
  wait-syncs false s = ground arith
