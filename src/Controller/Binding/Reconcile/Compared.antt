-- ===== src/Controller/Binding/Reconcile/Compared.antt =====
-- What a round does to its target once it has observed it.
use le_to_alicloud.Prelude.{◌≡◌, ◌⊎◌, inl, inr, true, false, ◌∷◌, arith, Bool-cases, ok, Res-cases}
use le_to_alicloud.Provider.Types.{CertMaterial}
use le_to_alicloud.Provider.Interface.{Target, ObservedState, Client, Provider}
use le_to_alicloud.Controller.Binding.World.{BindingEnv, BindingRound, apply_target, count_apply}
use le_to_alicloud.Controller.Binding.World.Traces.{applies}
use le_to_alicloud.Controller.Binding.Identity.{capabilities_of, identity_of, ensure_https_of}
use le_to_alicloud.Controller.Binding.Status.{aggregate_binding_ready}
use le_to_alicloud.Controller.Binding.Observe.{
  set_fenced_conflict, account_differs, note_observed, fence_account, note_drift,
}
use le_to_alicloud.Controller.Binding.Apply.{binding_apply_result}
use le_to_alicloud.Controller.Binding.Reconcile.{
  options_of, error_of, up_to_date, write_target, compare_target,
}
use le_to_alicloud.Controller.Binding.Reconcile.Quiet.{
  with_b, note_observed-Untouched, note_drift-Untouched, patch-Untouched,
  handle_apply_error-Untouched, finish_applied-Untouched,
}

module _ {W : Type 0} (env : BindingEnv W) where
  note_drift_lem :
      (obs : ObservedState) (m : CertMaterial) (s : BindingRound W)
      → ((note_drift env obs m s).0 ≡ ok tt)
        × (options_of (note_drift env obs m s).1.b ≡ options_of s.b)
  unfolding note_drift ensure_https_of
  note_drift_lem obs m s = ground arith

  write_target-applies :
      (p : Provider W) (cl : Client W) (tg : Target) (m : CertMaterial) (obs : ObservedState)
      (s : BindingRound W)
      → applies (write_target env p cl tg m obs s).1.trace
        ≡ (tg, (m, options_of s.b)) ∷ applies s.trace
  unfolding write_target
  write_target-applies p cl tg m obs s =
      let s1 = (note_drift env obs m s).1 in
      let opts = options_of s1.b in
      let (r, cloud) = p.apply tg cl m opts s1.cloud in
      let s2 = record s1 {
        cloud = cloud;
        trace =
            count_apply s1.provider (binding_apply_result (error_of r))
            ∷ apply_target tg m opts
            ∷ s1.trace;
      } in
      elim (Res-cases r) [
        | inr (e, failed) ↦ ground (
          arith,
          failed,
          note_drift_lem obs m s,
          note_drift-Untouched env obs m s,
          handle_apply_error-Untouched env e s2,
        )
        | inl (_, fine) ↦ ground (
          arith,
          fine,
          note_drift_lem obs m s,
          note_drift-Untouched env obs m s,
          finish_applied-Untouched env obs m true s2,
        )
      ]

  note_observed_lem :
      (obs : ObservedState) (m : CertMaterial) (s : BindingRound W)
      → ((note_observed env s).0 ≡ ok tt)
        × (account_differs (note_observed env s).1.b obs ≡ account_differs s.b obs)
        × (up_to_date env (note_observed env s).1.b obs m ≡ up_to_date env s.b obs m)
        × (options_of (note_observed env s).1.b ≡ options_of s.b)
  unfolding note_observed account_differs up_to_date identity_of capabilities_of ensure_https_of
  note_observed_lem obs m s = ground arith

  pub compare_target-applies :
      (p : Provider W) (cl : Client W) (tg : Target) (m : CertMaterial) (obs : ObservedState)
      (s : BindingRound W)
      → (applies (compare_target env p cl tg m obs s).1.trace ≡ applies s.trace)
        ⊎ ((account_differs s.b obs ≡ false)
            × (up_to_date env s.b obs m ≡ false)
            × (applies (compare_target env p cl tg m obs s).1.trace
                ≡ (tg, (m, options_of s.b)) ∷ applies s.trace))
  unfolding compare_target fence_account
  compare_target-applies p cl tg m obs s =
      let s1 = (note_observed env s).1 in
      let kept = note_observed_lem obs m s in
      let same = note_observed-Untouched env s in
      elim (Bool-cases (account_differs s1.b obs)) [
        | inl differs ↦ inl (
            ground (
              arith,
              kept,
              same,
              differs,
              patch-Untouched env (
                  with_b env (λ b. aggregate_binding_ready env.meta (set_fenced_conflict env b))
                    s1),
            ))
        | inr fits ↦ elim (Bool-cases (up_to_date env s1.b obs m)) [
          | inl current ↦ inl (
              ground
                (arith, kept, same, fits, current, finish_applied-Untouched env obs m false s1))
          | inr behind ↦
              inr (ground (arith, kept, same, fits, behind, write_target-applies p cl tg m obs s1))
        ]
      ]
