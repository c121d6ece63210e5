-- ===== src/Controller/Binding/Deletion/Ends.antt =====
-- A deletion comes to an end.
use le_to_alicloud.Prelude.{
  ◌≡◌, sym, subst, ℕ, true, false, Option, some, ◌∷◌, arith, Bool-cases, Option-cases, inl, inr,
  Res, ok, Res-cases, is_ok, text_eq, codes, ltb_ℤ, sub_ℕ, ℤ, pos,
}
use le_to_alicloud.Api.Conditions.{Reason}
use le_to_alicloud.Api.Certificate.{AliyunCertificate}
use le_to_alicloud.Api.Binding.{AliyunCertificateBinding}
use le_to_alicloud.Aliyun.Errors.{Error}
use le_to_alicloud.Provider.Interface.{Target, Client, Provider}
use le_to_alicloud.Controller.Certificate.Deletion.{should_abandon_cleanup}
use le_to_alicloud.Controller.Binding.World.{
  BindingEnv, BindingRound, BindingTrace, update_binding, clear_gauges, count_abandoned,
  event_warning, read_clock, get_referred,
}
use le_to_alicloud.Controller.Binding.Identity.{target_of}
use le_to_alicloud.Controller.Binding.Status.{target_region, clear_binding_metrics}
use le_to_alicloud.Controller.Binding.Client.{provider_client}
use le_to_alicloud.Controller.Binding.Deletion.{
  wants_unbind, without_finalizer, provider_err_class, holds_ours, unbind_observed, unbind_target,
  finish_binding_deletion, start_binding_cleanup, retry_or_abandon_binding, unbind_and_finish,
  reconcile_binding_delete,
}

-- The round answers that nothing is left to do, after it sent the binding without the finalizer and
-- otherwise as it stands, and then cleared the gauges.
abbrev pub Ended : {W : Type 0} → AliyunCertificateBinding → Res Error ℤ × BindingRound W → Type 0
Ended b (r, after) =
    (r ≡ ok (pos 0))
    × ((before : BindingTrace) × (after.trace
          ≡ clear_gauges ∷ update_binding (record b { finalizer = false }) ∷ before))

module _ {W : Type 0} (env : BindingEnv W) where
  -- The API server accepts every update of a binding.
  abbrev pub Accepts : Type 0
  Accepts =
      (t : BindingTrace) (b : AliyunCertificateBinding) → is_ok (env.on_update_binding t b) ≡ true

  finish_binding_deletion-Ended :
      (s : BindingRound W) → Accepts → Ended s.b (finish_binding_deletion env s)
  unfolding finish_binding_deletion clear_binding_metrics
  finish_binding_deletion-Ended s accepts =
      elim (Res-cases (env.on_update_binding s.trace (without_finalizer s.b))) [
        | inr (e, refused) ↦
            absurd (ground (arith, refused, accepts s.trace (without_finalizer s.b)))
        | inl (b, fine) ↦ (ground (arith, fine), (s.trace, ground (arith, fine)))
      ]

  unbind_observed-b :
      (p : Provider W) (cl : Client W) (tg : Target) (s : BindingRound W)
      → (unbind_observed env p cl tg s).1.b ≡ s.b
  unfolding unbind_observed
  unbind_observed-b p cl tg s = elim (Res-cases (p.observe tg cl s.cloud).0) [
    | inr (x, failed) ↦ ground (arith, failed)
    | inl (obs, seen) ↦ elim (Bool-cases (holds_ours env s.b obs)) [
      | inr foreign ↦ ground (arith, seen, foreign)
      | inl ours ↦ ground (arith, seen, ours)
    ]
  ]

  provider_client-b :
      (ac : Option AliyunCertificate) (s : BindingRound W) → (provider_client env ac s).1.b ≡ s.b
  unfolding provider_client
  provider_client-b ac s = elim (Option-cases env.provider_factory) [
    | inl e ↦ ground (arith, e)
    | inr (make, e) ↦ ground (arith, e)
  ]

  get_referred-b : (s : BindingRound W) → (get_referred env s).1.b ≡ s.b
  get_referred-b s = ground arith

  unbind_target-b : (s : BindingRound W) → (unbind_target env s).1.b ≡ s.b
  unfolding unbind_target
  unbind_target-b s = elim (Res-cases (get_referred env s).0) [
    | inr (x, failed) ↦ ground (arith, failed, get_referred-b s)
    | inl (ac, found) ↦
        let s1 = (get_referred env s).1 in
        let s2 = (provider_client env ac s1).1 in
        elim (Res-cases (provider_client env ac s1).0) [
          | inr (x, failed) ↦
              ground (arith, found, failed, get_referred-b s, provider_client-b ac s1)
          | inl ((p, cl), made) ↦ elim (Res-cases (target_of s2.b)) [
            | inr (x, failed) ↦
                ground (arith, found, made, failed, get_referred-b s, provider_client-b ac s1)
            | inl (tg, known) ↦ ground (
              arith,
              found,
              made,
              known,
              get_referred-b s,
              provider_client-b ac s1,
              unbind_observed-b p cl tg s2,
            )
          ]
        ]
  ]

  -- the rounds in which a failure is given up, and in which the deletion ends
  abbrev abandoned : Error → BindingRound W → BindingRound W
  abandoned e s = record s {
    trace =
        count_abandoned (target_region s.b) (provider_err_class e)
        ∷ event_warning Reason.cleanup_abandoned
        ∷ read_clock
        ∷ s.trace;
  }

  -- The grace period is over, whenever the clock is read.
  abbrev pub Over : ℕ → Type 0
  Over began =
      (t : BindingTrace) → ltb_ℤ (sub_ℕ (env.clock t) began) env.cleanup_grace_period ≡ false

  retry_or_abandon_binding-Ended :
      (e : Error) (began : ℕ) (s : BindingRound W)
      → text_eq env.cleanup_failure_policy (codes "Block") ≡ false
      → s.b.status.cleanup_started_at ≡ some began
      → Over began
      → Accepts
      → Ended s.b (retry_or_abandon_binding env e s)
  unfolding retry_or_abandon_binding should_abandon_cleanup
  retry_or_abandon_binding-Ended e began s abandons since over accepts =
      let runs : retry_or_abandon_binding env e s ≡ finish_binding_deletion env (abandoned e s) =
        ground (arith, abandons, since, over s.trace) in
      subst (Ended s.b) (sym runs) (finish_binding_deletion-Ended (abandoned e s) accepts)

  unbind_and_finish-Ended :
      (began : ℕ) (s : BindingRound W)
      → text_eq env.cleanup_failure_policy (codes "Block") ≡ false
      → s.b.status.cleanup_started_at ≡ some began
      → Over began
      → Accepts
      → Ended s.b (unbind_and_finish env s)
  unfolding unbind_and_finish start_binding_cleanup
  unbind_and_finish-Ended began s abandons since over accepts =
      let s2 = (unbind_target env s).1 in
      elim (Res-cases (unbind_target env s).0) [
        | inl (_, done) ↦
            let runs : unbind_and_finish env s ≡ finish_binding_deletion env s2 =
              ground (arith, since, done) in
            subst (λ b. Ended b (unbind_and_finish env s)) (unbind_target-b s)
              (subst (Ended s2.b) (sym runs) (finish_binding_deletion-Ended s2 accepts))
        | inr (e, stopped) ↦
            let runs : unbind_and_finish env s ≡ retry_or_abandon_binding env e s2 =
              ground (arith, since, stopped) in
            subst (λ b. Ended b (unbind_and_finish env s)) (unbind_target-b s)
              (subst (Ended s2.b) (sym runs) (
                retry_or_abandon_binding-Ended e began s2 abandons
                  (ground (arith, since, unbind_target-b s)) over accepts))
      ]

  -- The deletion of a binding whose grace period began and is over ends, unless the policy is `Block`:
  -- if the API server accepts every update, the round sends the binding without its finalizer and
  -- otherwise as it was, and wants no other round, whatever the provider, the factory and the API
  -- server answer to the attempt to unbind the target.
  pub reconcile_binding_delete-Ended :
      (began : ℕ) (s : BindingRound W)
      → s.b.finalizer ≡ true
      → text_eq env.cleanup_failure_policy (codes "Block") ≡ false
      → s.b.status.cleanup_started_at ≡ some began
      → Over began
      → Accepts
      → Ended s.b (reconcile_binding_delete env s)
  unfolding reconcile_binding_delete
  reconcile_binding_delete-Ended began s kept abandons since over accepts =
      elim (Bool-cases (wants_unbind s.b)) [
        | inl wants ↦
            let runs : reconcile_binding_delete env s ≡ unbind_and_finish env s =
              ground (arith, kept, wants) in
            subst (Ended s.b) (sym runs)
              (unbind_and_finish-Ended began s abandons since over accepts)
        | inr leaves ↦
            let runs : reconcile_binding_delete env s ≡ finish_binding_deletion env s =
              ground (arith, kept, leaves) in
            subst (Ended s.b) (sym runs) (finish_binding_deletion-Ended s accepts)
      ]
