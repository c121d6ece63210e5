-- ===== src/Controller/Certificate/Deletion/Order.antt =====
-- What a deletion does not do before its time.
use le_to_alicloud.Prelude.{
  ◌≡◌, ◌⊎◌, refl, inl, inr, true, false, Option, none, some, List, [], ◌∷◌, ◌++◌, arith, codes,
  is_ok, ok, Res-cases, text_eq, Text,
}
use le_to_alicloud.Api.Certificate.{CertificateGeneration, PendingUpload}
use le_to_alicloud.Api.Binding.{AliyunCertificateBinding}
use le_to_alicloud.Aliyun.Errors.{Error}
use le_to_alicloud.Controller.World.{Env, Round, new_cas_client}
use le_to_alicloud.Controller.World.Traces.{finishing, deletions}
use le_to_alicloud.Controller.Certificate.Retention.{referring, live_bindings_for, with_history}
use le_to_alicloud.Controller.Certificate.Deletion.{
  active_binding_names, should_abandon_cleanup, delete_certificate, delete_generation,
  cleanup_history, cleanup_current, cleanup_pending_upload, cleanup_cas, start_cleanup,
  retry_or_abandon, clean_up, reconcile_delete,
}
use le_to_alicloud.Controller.Certificate.Deletion.Cleanup.{Clean, cleanup_cas-Clean}

module _ (env : Env) where
  -- If a binding that the API server lists refers to the CR and is not being deleted, a reconcile of
  -- the deletion deletes nothing, in the cloud or in the cluster, and does not remove the finalizer.
  pub reconcile_delete_blocked :
      (s : Round) (items : List AliyunCertificateBinding) (name : Text) (names : List Text)
      → env.on_list_bindings s.trace ≡ ok items
      → active_binding_names (referring s.ac.name items) ≡ name ∷ names
      → (finishing (reconcile_delete env s).1.trace ≡ finishing s.trace)
        × (deletions (reconcile_delete env s).1.trace ≡ deletions s.trace)
  unfolding reconcile_delete live_bindings_for
  reconcile_delete_blocked s items name names e active = ground (arith, e, active)

  delete_generation-finishing :
      (g : CertificateGeneration) (s : Round)
      → finishing (delete_generation env g s).1.trace ≡ finishing s.trace
  unfolding delete_generation delete_certificate
  delete_generation-finishing g s = ground arith

  cleanup_history-finishing :
      (gs done : List CertificateGeneration) (s : Round)
      → finishing (cleanup_history env done gs s).1.trace ≡ finishing s.trace
  unfolding cleanup_history
  cleanup_history-finishing [] done s = refl
  cleanup_history-finishing (g ∷ gs) done s = elim (Res-cases (delete_generation env g s).0) [
    | inr (x, failed) ↦ ground (arith, failed, delete_generation-finishing g s)
    | inl (g', fine) ↦ ground (
      arith,
      fine,
      delete_generation-finishing g s,
      cleanup_history-finishing gs (done ++ g' ∷ []) (record (delete_generation env g s).1 {
        ac = with_history (done ++ g' ∷ gs) (delete_generation env g s).1.ac;
      }),
    )
  ]

  cleanup_current-finishing :
      (o : Option CertificateGeneration) (s : Round)
      → finishing (cleanup_current env o s).1.trace ≡ finishing s.trace
  unfolding cleanup_current
  cleanup_current-finishing none s = refl
  cleanup_current-finishing (some g) s = ground (arith, delete_generation-finishing g s)

  cleanup_pending_upload-finishing :
      (o : Option PendingUpload) (s : Round)
      → finishing (cleanup_pending_upload env o s).1.trace ≡ finishing s.trace
  unfolding cleanup_pending_upload delete_certificate
  cleanup_pending_upload-finishing none s = refl
  cleanup_pending_upload-finishing (some p) s = ground arith

  cleanup_cas-finishing : (s : Round) → finishing (cleanup_cas env s).1.trace ≡ finishing s.trace
  unfolding cleanup_cas
  cleanup_cas-finishing s =
      let s1 = record s { trace = new_cas_client ∷ s.trace } in
      let s2 = (cleanup_history env [] s.ac.status.history s1).1 in
      let s3 = (cleanup_current env s.ac.status.current s2).1 in
      ground (
        arith,
        cleanup_history-finishing s.ac.status.history [] s1,
        cleanup_current-finishing s.ac.status.current s2,
        cleanup_pending_upload-finishing s.ac.status.pending_upload s3,
      )

  start_cleanup-finishing :
      (s : Round) → finishing (start_cleanup env s).1.trace ≡ finishing s.trace
  unfolding start_cleanup
  start_cleanup-finishing s = ground arith

  retry-finishing :
      (e : Error) (s : Round)
      → text_eq env.cleanup_failure_policy (codes "Block") ≡ true
      → (finishing (retry_or_abandon env e s).1.trace ≡ finishing s.trace)
        × (is_ok (retry_or_abandon env e s).0 ≡ false)
  unfolding retry_or_abandon should_abandon_cleanup
  retry-finishing e s h = ground (arith, h)

  -- Under the policy Block, a round that cleans up removes neither the Certificate, nor the Secret,
  -- nor the finalizer, unless after its cleanup of the cloud nothing is left recorded: no generation
  -- has a certId, and there is no write-ahead record.
  pub clean_up-Block :
      (s : Round)
      → text_eq env.cleanup_failure_policy (codes "Block") ≡ true
      → (finishing (clean_up env s).1.trace ≡ finishing s.trace)
        ⊎ Clean env (cleanup_cas env (start_cleanup env s).1).1
  unfolding clean_up
  clean_up-Block s h =
      let s1 = (start_cleanup env s).1 in
      elim (cleanup_cas-Clean env s1) [
        | inr clean ↦ inr clean
        | inl failed ↦ elim (Res-cases (cleanup_cas env s1).0) [
          | inl (x, fine) ↦ absurd (ground (arith, failed, fine))
          | inr (e, stopped) ↦ inl (
              ground (
                arith,
                stopped,
                start_cleanup-finishing s,
                cleanup_cas-finishing s1,
                retry-finishing e (cleanup_cas env s1).1 h,
              ))
        ]
      ]
