-- ===== src/Controller/Binding/Deletion/Quiet.antt =====
-- What the deletion of a binding does not touch.
use le_to_alicloud.Prelude.{◌≡◌, Option, arith, Bool-cases, Option-cases, inl, inr, Res-cases}
use le_to_alicloud.Api.Certificate.{AliyunCertificate}
use le_to_alicloud.Aliyun.Errors.{Error}
use le_to_alicloud.Provider.Interface.{Target, Client, Provider}
use le_to_alicloud.Controller.Binding.World.{BindingEnv, BindingRound, get_referred}
use le_to_alicloud.Controller.Binding.World.Traces.{ages, applies}
use le_to_alicloud.Controller.Binding.Identity.{target_of}
use le_to_alicloud.Controller.Binding.Status.{record_binding_readiness, clear_binding_metrics}
use le_to_alicloud.Controller.Binding.Client.{provider_client}
use le_to_alicloud.Controller.Binding.Deletion.{
  holds_ours, unbind_observed, unbind_target, finish_binding_deletion, start_binding_cleanup,
  retry_or_abandon_binding, unbind_and_finish, reconcile_binding_delete,
}

module _ {W : Type 0} (env : BindingEnv W) where
  -- The gauge of the age is not set, and no certificate is written.
  abbrev pub Still : BindingRound W → BindingRound W → Type 0
  Still s after = (ages after.trace ≡ ages s.trace) × (applies after.trace ≡ applies s.trace)

  unbind_observed-Still :
      (p : Provider W) (cl : Client W) (tg : Target) (s : BindingRound W)
      → Still s (unbind_observed env p cl tg s).1
  unfolding unbind_observed
  unbind_observed-Still p cl tg s = elim (Res-cases (p.observe tg cl s.cloud).0) [
    | inr (x, failed) ↦ ground (arith, failed)
    | inl (obs, seen) ↦ elim (Bool-cases (holds_ours env s.b obs)) [
      | inr foreign ↦ ground (arith, seen, foreign)
      | inl ours ↦ ground (arith, seen, ours)
    ]
  ]

  provider_client-Still :
      (ac : Option AliyunCertificate) (s : BindingRound W) → Still s (provider_client env ac s).1
  unfolding provider_client
  provider_client-Still ac s = elim (Option-cases env.provider_factory) [
    | inl e ↦ ground (arith, e)
    | inr (make, e) ↦ ground (arith, e)
  ]

  get_referred-Still : (s : BindingRound W) → Still s (get_referred env s).1
  get_referred-Still s = ground arith

  unbind_target-Still : (s : BindingRound W) → Still s (unbind_target env s).1
  unfolding unbind_target
  unbind_target-Still s = elim (Res-cases (get_referred env s).0) [
    | inr (x, failed) ↦ ground (arith, failed, get_referred-Still s)
    | inl (ac, found) ↦
        let s1 = (get_referred env s).1 in
        let s2 = (provider_client env ac s1).1 in
        elim (Res-cases (provider_client env ac s1).0) [
          | inr (x, failed) ↦
              ground (arith, found, failed, get_referred-Still s, provider_client-Still ac s1)
          | inl ((p, cl), made) ↦ elim (Res-cases (target_of s2.b)) [
            | inr (x, failed) ↦
                ground
                  (arith, found, made, failed, get_referred-Still s, provider_client-Still ac s1)
            | inl (tg, known) ↦ ground (
              arith,
              found,
              made,
              known,
              get_referred-Still s,
              provider_client-Still ac s1,
              unbind_observed-Still p cl tg s2,
            )
          ]
        ]
  ]

  finish_binding_deletion-Still : (s : BindingRound W) → Still s (finish_binding_deletion env s).1
  unfolding finish_binding_deletion clear_binding_metrics
  finish_binding_deletion-Still s = ground arith

  start_binding_cleanup-Still : (s : BindingRound W) → Still s (start_binding_cleanup env s).1
  unfolding start_binding_cleanup
  start_binding_cleanup-Still s = ground arith

  retry_or_abandon_binding-Still :
      (e : Error) (s : BindingRound W) → Still s (retry_or_abandon_binding env e s).1
  unfolding retry_or_abandon_binding record_binding_readiness finish_binding_deletion
      clear_binding_metrics
  retry_or_abandon_binding-Still e s = ground arith

  unbind_and_finish-Still : (s : BindingRound W) → Still s (unbind_and_finish env s).1
  unfolding unbind_and_finish
  unbind_and_finish-Still s =
      let s1 = (start_binding_cleanup env s).1 in
      let s2 = (unbind_target env s1).1 in
      elim (Res-cases (start_binding_cleanup env s).0) [
        | inr (x, failed) ↦ ground (arith, failed, start_binding_cleanup-Still s)
        | inl (_, fine) ↦ elim (Res-cases (unbind_target env s1).0) [
          | inl (_, done) ↦ ground (
            arith,
            fine,
            done,
            start_binding_cleanup-Still s,
            unbind_target-Still s1,
            finish_binding_deletion-Still s2,
          )
          | inr (e, stopped) ↦ ground (
            arith,
            fine,
            stopped,
            start_binding_cleanup-Still s,
            unbind_target-Still s1,
            retry_or_abandon_binding-Still e s2,
          )
        ]
      ]

  -- No round of a deletion sets the gauge that says for how long the target lags behind its
  -- certificate, which such a round does not know, and none writes a certificate.
  pub reconcile_binding_delete-Still :
      (s : BindingRound W) → Still s (reconcile_binding_delete env s).1
  unfolding reconcile_binding_delete
  reconcile_binding_delete-Still s =
      ground (arith, unbind_and_finish-Still s, finish_binding_deletion-Still s)
