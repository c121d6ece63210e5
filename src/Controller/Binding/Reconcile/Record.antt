-- ===== src/Controller/Binding/Reconcile/Record.antt =====
-- What the status that a round sends says of the certificate on the target.
use le_to_alicloud.Prelude.{
  ◌≡◌, subst, ◌⊎◌, inl, inr, true, false, ◌∷◌, arith, Bool-cases, ok, Res-cases,
}
use le_to_alicloud.Api.Conditions.{Reason, is_true, conflict}
use le_to_alicloud.Api.Binding.{AliyunCertificateBinding}
use le_to_alicloud.Provider.Types.{CertMaterial}
use le_to_alicloud.Provider.Interface.{Target, ObservedState, Client, Provider}
use le_to_alicloud.Controller.Binding.World.{BindingEnv, BindingRound, apply_target, count_apply}
use le_to_alicloud.Controller.Binding.Status.{aggregate_binding_ready}
use le_to_alicloud.Controller.Binding.Observe.{
  set_fenced_conflict, account_differs, note_observed, fence_account, note_drift,
}
use le_to_alicloud.Controller.Binding.Apply.{binding_apply_result}
use le_to_alicloud.Controller.Binding.Reconcile.{
  options_of, error_of, up_to_date, write_target, compare_target,
}
use le_to_alicloud.Controller.Binding.Reconcile.Sent.{
  SameRecord, Recorded, SentOne, patch-sent, aggregate-SameRecord, set-SameRecord,
  handle_apply_error-Sent, finish_applied-Sent, note_drift-Same, note_observed-Same,
}

module _ {W : Type 0} (env : BindingEnv W) where
  -- The record is kept, or the material is recorded after `Apply` succeeded, or after the observation
  -- said that the target is up to date.
  abbrev pub KeptOrConfirmed :
      Provider W
      → Client W
      → Target
      → CertMaterial
      → ObservedState
      → AliyunCertificateBinding
      → AliyunCertificateBinding
      → Type 0
  KeptOrConfirmed p cl tg m obs b after =
      SameRecord b after
      ⊎ (Recorded m obs b after
          × ((up_to_date env b obs m ≡ true)
              ⊎ ((at : W) × ((p.apply tg cl m (options_of b) at).0 ≡ ok tt))))

  write_target-Sent :
      (p : Provider W) (cl : Client W) (tg : Target) (m : CertMaterial) (obs : ObservedState)
      (s : BindingRound W)
      → SentOne env (KeptOrConfirmed p cl tg m obs s.b) s (write_target env p cl tg m obs s).1
  unfolding write_target
  write_target-Sent p cl tg m obs s =
      let s1 = (note_drift env obs m s).1 in
      let opts = options_of s1.b in
      let (r, cloud) = p.apply tg cl m opts s1.cloud in
      let s2 = record s1 {
        cloud = cloud;
        trace =
            count_apply s1.provider (binding_apply_result (error_of r))
            ∷ apply_target tg m opts
            ∷ s1.trace;
      } in
      let (fine, quiet, same, options) = note_drift-Same env obs m s in
      elim (Res-cases r) [
        | inr (e, failed) ↦
            let (b, one, kept) = handle_apply_error-Sent env e s2 in
            (b, ground (arith, failed, fine, quiet, one), inl (ground (arith, same, kept)))
        | inl (_, done) ↦
            let (b, one, recorded) = finish_applied-Sent env obs m true s2 in
            (
              b,
              ground (arith, done, fine, quiet, one),
              inr (ground (arith, same, recorded), inr (s1.cloud, ground (arith, options, done))),
            )
      ]

  KeptOrConfirmed-along :
      (p : Provider W) (cl : Client W) (tg : Target) (m : CertMaterial) (obs : ObservedState)
      (b b' after : AliyunCertificateBinding)
      → SameRecord b b'
      → up_to_date env b' obs m ≡ up_to_date env b obs m
      → options_of b' ≡ options_of b
      → KeptOrConfirmed p cl tg m obs b' after
      → KeptOrConfirmed p cl tg m obs b after
  KeptOrConfirmed-along p cl tg m obs b b' after same current_ options (inl kept) =
      inl (ground (arith, same, kept))
  KeptOrConfirmed-along p cl tg m obs b b' after same current_ options (inr (recorded, inl there)) =
      inr (ground (arith, same, recorded), inl (ground (arith, current_, there)))
  KeptOrConfirmed-along p cl tg m obs b b' after same current_ options
        (inr (recorded, inr (at, done))) =
      inr (
        ground (arith, same, recorded),
        inr (at, subst (λ o. (p.apply tg cl m o at).0 ≡ ok tt) options done),
      )

  -- What a round does after an observation sends one status. It keeps the recorded fingerprint and the
  -- recorded account; or it records the material's fingerprint, without a drift, and the observed
  -- account if none was recorded, and then the provider's `Apply` of this material succeeded, or the
  -- observation said that the target is up to date.
  pub compare_target-Sent :
      (p : Provider W) (cl : Client W) (tg : Target) (m : CertMaterial) (obs : ObservedState)
      (s : BindingRound W)
      → SentOne env (KeptOrConfirmed p cl tg m obs s.b) s (compare_target env p cl tg m obs s).1
  unfolding compare_target fence_account
  compare_target-Sent p cl tg m obs s =
      let s1 = (note_observed env s).1 in
      let (fine, quiet, same, account, current_, options) = note_observed-Same env obs m s in
      let fenced = set_fenced_conflict env s1.b in
      let b2 = aggregate_binding_ready env.meta fenced in
      elim (Bool-cases (account_differs s1.b obs)) [
        | inl differs ↦ (
          b2,
          ground (arith, fine, quiet, differs, patch-sent env (record s1 { b = b2 })),
          inl (
              ground (
                arith,
                same,
                aggregate-SameRecord env fenced,
                set-SameRecord env conflict is_true Reason.account_mismatch s1.b,
              )),
        )
        | inr fits ↦ elim (Bool-cases (up_to_date env s1.b obs m)) [
          | inl there ↦
              let (b, one, recorded) = finish_applied-Sent env obs m false s1 in
              (
                b,
                ground (arith, fine, quiet, fits, there, one),
                inr (ground (arith, same, recorded), inl (ground (arith, there, current_))),
              )
          | inr behind ↦
              let (b, one, kept) = write_target-Sent p cl tg m obs s1 in
              (
                b,
                ground (arith, fine, quiet, fits, behind, one),
                KeptOrConfirmed-along p cl tg m obs s.b s1.b b same current_ options kept,
              )
        ]
      ]
