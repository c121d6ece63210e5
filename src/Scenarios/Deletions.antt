-- ===== src/Scenarios/Deletions.antt =====
-- Reclaims and deletions in the world of the scenarios.
use le_to_alicloud.Prelude.{
  ◌≡◌, ◌⊎◌, ◌↔◌, refl, true, false, [], ◌∷◌, codes, pos, All, ◌≤ℤ◌, sub_ℕ, is_ok, text_eq,
}
use le_to_alicloud.Controller.World.Traces.{finishing, deletions}
use le_to_alicloud.Controller.Certificate.Retention.{
  reclaimable, referring, reclaim_old_generations,
}
use le_to_alicloud.Controller.Certificate.Retention.Guard.{LetGo, reclaimable_iff}
use le_to_alicloud.Controller.Certificate.Retention.Reclaim.{
  Untouched, Reclaimed, reclaim_old_generations-Reclaimed,
}
use le_to_alicloud.Controller.Certificate.Deletion.{
  active_binding_names, start_cleanup, cleanup_cas, clean_up, reconcile_delete,
}
use le_to_alicloud.Controller.Certificate.Deletion.Cleanup.{Clean, cleanup_cas-Clean}
use le_to_alicloud.Controller.Certificate.Deletion.Order.{clean_up-Block, reconcile_delete_blocked}
use le_to_alicloud.Scenarios.Data.{test_env, test_round, test_binding, older_generation}

reclaim_old_generations-Reclaimed_example :
    Untouched test_env test_round (reclaim_old_generations test_env test_round).1
    ⊎ Reclaimed test_env test_round (reclaim_old_generations test_env test_round).1
reclaim_old_generations-Reclaimed_example = reclaim_old_generations-Reclaimed test_env test_round

reclaimable_iff_example :
    (reclaimable older_generation 100000000000000000 (pos 86400000000000) (test_binding ∷ [])
      ≡ true)
    ↔ ((pos 86400000000000 ≤ℤ sub_ℕ 100000000000000000 0)
        × All (LetGo (codes "older")) (test_binding ∷ []))
reclaimable_iff_example =
    reclaimable_iff older_generation 100000000000000000 (pos 86400000000000) (test_binding ∷ [])

cleanup_cas-Clean_example :
    (is_ok (cleanup_cas test_env test_round).0 ≡ false)
    ⊎ Clean test_env (cleanup_cas test_env test_round).1
cleanup_cas-Clean_example = cleanup_cas-Clean test_env test_round

clean_up-Block_example :
    (finishing (clean_up test_env test_round).1.trace ≡ [])
    ⊎ Clean test_env (cleanup_cas test_env (start_cleanup test_env test_round).1).1
unfolding text_eq
clean_up-Block_example = clean_up-Block test_env test_round refl

reconcile_delete_blocked_example :
    (finishing (reconcile_delete test_env test_round).1.trace ≡ [])
    × (deletions (reconcile_delete test_env test_round).1.trace ≡ [])
unfolding active_binding_names referring text_eq
reconcile_delete_blocked_example =
    reconcile_delete_blocked test_env test_round (test_binding ∷ []) (codes "site") [] refl refl
