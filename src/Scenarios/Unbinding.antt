-- ===== src/Scenarios/Unbinding.antt =====
-- The end of a binding to a custom domain.
use le_to_alicloud.Prelude.{◌≡◌, ◌⊎◌, refl, [], text_eq}
use le_to_alicloud.Api.Binding.{unbind}
use le_to_alicloud.Controller.Binding.World.Traces.{cleanups}
use le_to_alicloud.Controller.Binding.Deletion.{reconcile_binding_delete}
use le_to_alicloud.Controller.Binding.Deletion.Ends.{Ended, reconcile_binding_delete-Ended}
use le_to_alicloud.Controller.Binding.Deletion.Ours.{
  OnlyOurs, started, reconcile_binding_delete-OnlyOurs,
}
use le_to_alicloud.Scenarios.Fakes.{test_fc3, binding_env, round_of, leaving_binding}

reconcile_binding_delete-Ended_example :
    Ended leaving_binding (reconcile_binding_delete binding_env (round_of leaving_binding test_fc3))
unfolding text_eq
reconcile_binding_delete-Ended_example =
    reconcile_binding_delete-Ended binding_env 7 (round_of leaving_binding test_fc3) refl refl refl
      (λ t. refl) (λ t b. refl)

reconcile_binding_delete-OnlyOurs_example :
    (cleanups (reconcile_binding_delete binding_env (round_of leaving_binding test_fc3)).1.trace
      ≡ [])
    ⊎ ((leaving_binding.spec.deletion_policy ≡ unbind)
        × OnlyOurs binding_env (started binding_env (round_of leaving_binding test_fc3)) [] (
            cleanups
              (reconcile_binding_delete binding_env (round_of leaving_binding test_fc3)).1.trace))
reconcile_binding_delete-OnlyOurs_example =
    reconcile_binding_delete-OnlyOurs binding_env (round_of leaving_binding test_fc3)
