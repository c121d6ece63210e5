-- ===== src/Controller/Binding/Deletion/Ours.antt =====
-- Whose certificate a deletion takes from its target.
use le_to_alicloud.Prelude.{
  ◌≡◌, ◌∙◌, ◌⊎◌, inl, inr, true, Option, List, ◌∷◌, arith, text_eq_iff, Bool-cases, Res, ok,
  Res-cases, Option-cases, sym, ap, subst,
}
use le_to_alicloud.Api.Certificate.{AliyunCertificate}
use le_to_alicloud.Api.Binding.{AliyunCertificateBinding, unbind}
use le_to_alicloud.Aliyun.Errors.{Error}
use le_to_alicloud.Provider.Interface.{Target, ObservedState, Client, Provider}
use le_to_alicloud.Controller.Binding.World.{BindingEnv, BindingRound, get_referred}
use le_to_alicloud.Controller.Binding.World.Traces.{cleanups}
use le_to_alicloud.Controller.Binding.Identity.{identity_of, target_of}
use le_to_alicloud.Controller.Binding.Look.{
  InAccount, account_differs-InAccount, Seen, on_target, last_applied,
}
use le_to_alicloud.Controller.Binding.Status.{record_binding_readiness, clear_binding_metrics}
use le_to_alicloud.Controller.Binding.Observe.{account_differs}
use le_to_alicloud.Controller.Binding.Client.{provider_client}
use le_to_alicloud.Controller.Binding.Deletion.{
  holds_ours, unbind_observed, unbind_target, finish_binding_deletion, start_binding_cleanup,
  retry_or_abandon_binding, unbind_and_finish, reconcile_binding_delete,
}

module _ {W : Type 0} (env : BindingEnv W) where
  -- The target is in the account of the binding, if this recorded one, and has the certificate that the
  -- binding applied last.
  abbrev pub Ours : AliyunCertificateBinding → ObservedState → Type 0
  Ours b obs = InAccount b obs × (on_target env b obs ≡ last_applied env b)

  holds_ours-Ours :
      (b : AliyunCertificateBinding) (obs : ObservedState)
      → holds_ours env b obs ≡ true
      → Ours b obs
  unfolding holds_ours identity_of
  holds_ours-Ours b obs h = elim (Bool-cases (account_differs b obs)) [
    | inl differs ↦ absurd (ground (arith, h, differs))
    | inr fits ↦ (
      account_differs-InAccount b obs fits,
      ground (arith, h, fits, text_eq_iff (on_target env b obs) (last_applied env b)),
    )
  ]

  -- No target was cleaned up, or this one, with what is ours on it.
  abbrev ObservedOurs :
      AliyunCertificateBinding
      → Res Error ObservedState
      → Target
      → List Target
      → List Target
      → Type 0
  ObservedOurs b seen tg before after =
      (after ≡ before)
      ⊎ ((obs : ObservedState) × (seen ≡ ok obs) × Ours b obs × (after ≡ tg ∷ before))

  unbind_observed-Ours :
      (p : Provider W) (cl : Client W) (tg : Target) (s : BindingRound W)
      → ObservedOurs s.b
          (p.observe tg cl s.cloud).0
          tg
          (cleanups s.trace)
          (cleanups (unbind_observed env p cl tg s).1.trace)
  unfolding unbind_observed
  unbind_observed-Ours p cl tg s = elim (Res-cases (p.observe tg cl s.cloud).0) [
    | inr (x, failed) ↦ inl (ground (arith, failed))
    | inl (obs, seen) ↦ elim (Bool-cases (holds_ours env s.b obs)) [
      | inr foreign ↦ inl (ground (arith, seen, foreign))
      | inl ours ↦ inr (obs, seen, holds_ours-Ours s.b obs ours, ground (arith, seen, ours))
    ]
  ]

  -- the round after the certificate is looked for
  abbrev pub referred : BindingRound W → BindingRound W
  referred s = (get_referred env s).1

  -- No target was cleaned up, or one: for the answer to the question for the certificate, the round
  -- saw it with what is ours on it.
  abbrev pub OnlyOurs : BindingRound W → List Target → List Target → Type 0
  OnlyOurs s before after =
      (after ≡ before)
      ⊎ ((ac : Option AliyunCertificate) × (tg : Target) × (obs : ObservedState) × ((get_referred
              env s).0
            ≡ ok ac)
          × Seen env ac (referred s) tg obs
          × Ours s.b obs
          × (after ≡ tg ∷ before))

  get_referred-kept :
      (s : BindingRound W)
      → ((referred s).b ≡ s.b) × (cleanups (referred s).trace ≡ cleanups s.trace)
  get_referred-kept s = ground arith

  provider_client-kept :
      (ac : Option AliyunCertificate) (s : BindingRound W)
      → ((provider_client env ac s).1.b ≡ s.b)
        × ((provider_client env ac s).1.cloud ≡ s.cloud)
        × (cleanups (provider_client env ac s).1.trace ≡ cleanups s.trace)
  unfolding provider_client
  provider_client-kept ac s = elim (Option-cases env.provider_factory) [
    | inl e ↦ ground (arith, e)
    | inr (make, e) ↦ ground (arith, e)
  ]

  -- the round when the target is observed
  abbrev with_client : Option AliyunCertificate → BindingRound W → BindingRound W
  with_client ac s = (provider_client env ac (referred s)).1

  with_client-kept :
      (ac : Option AliyunCertificate) (s : BindingRound W)
      → ((with_client ac s).b ≡ s.b) × (cleanups (with_client ac s).trace ≡ cleanups s.trace)
  with_client-kept ac s = ground (arith, get_referred-kept s, provider_client-kept ac (referred s))

  unbind_target_runs :
      (ac : Option AliyunCertificate) (p : Provider W) (cl : Client W) (tg : Target)
      (s : BindingRound W)
      → (get_referred env s).0 ≡ ok ac
      → (provider_client env ac (referred s)).0 ≡ ok (p, cl)
      → target_of (with_client ac s).b ≡ ok tg
      → unbind_target env s ≡ unbind_observed env p cl tg (with_client ac s)
  unfolding unbind_target
  unbind_target_runs ac p cl tg s found made known = ground (arith, found, made, known)

  -- `unbindTarget` takes a certificate away at most once, and then from the target that it saw with
  -- what is ours on it.
  pub unbind_target-OnlyOurs :
      (s : BindingRound W) → OnlyOurs s (cleanups s.trace) (cleanups (unbind_target env s).1.trace)
  unfolding unbind_target
  unbind_target-OnlyOurs s = elim (Res-cases (get_referred env s).0) [
    | inr (x, failed) ↦ inl (ground (arith, failed, get_referred-kept s))
    | inl (ac, found) ↦
        let (same_b, kept) = with_client-kept ac s in
        let (same_referred, same_cloud, _) = provider_client-kept ac (referred s) in
        elim (Res-cases (provider_client env ac (referred s)).0) [
          | inr (x, failed) ↦ inl (ground (arith, found, failed, kept))
          | inl ((p, cl), made) ↦ elim (Res-cases (target_of (with_client ac s).b)) [
            | inr (x, failed) ↦ inl (ground (arith, found, made, failed, kept))
            | inl (tg, known) ↦
                let runs =
                  ap (λ (x : Res Error Unit × BindingRound W). cleanups x.1.trace)
                    (unbind_target_runs ac p cl tg s found made known) in
                elim (unbind_observed-Ours p cl tg (with_client ac s)) [
                  | inl none_ ↦ inl (runs ∙ none_ ∙ kept)
                  | inr (obs, seen, ours, one) ↦ inr (
                    ac,
                    tg,
                    obs,
                    found,
                    (
                      p,
                      cl,
                      made,
                      ap target_of (sym same_referred) ∙ known,
                      ap (λ w. (p.observe tg cl w).0) (sym same_cloud) ∙ seen,
                    ),
                    subst (λ b. Ours b obs) same_b ours,
                    runs ∙ one ∙ ap (λ t. tg ∷ t) kept,
                  )
                ]
          ]
        ]
  ]

  finish_binding_deletion-kept :
      (s : BindingRound W) → (cleanups (finish_binding_deletion env s).1.trace ≡ cleanups s.trace)
  unfolding finish_binding_deletion clear_binding_metrics
  finish_binding_deletion-kept s = ground arith

  start_binding_cleanup-kept :
      (s : BindingRound W) → (cleanups (start_binding_cleanup env s).1.trace ≡ cleanups s.trace)
  unfolding start_binding_cleanup
  start_binding_cleanup-kept s = ground arith

  retry_or_abandon_binding-kept :
      (e : Error) (s : BindingRound W)
      → (cleanups (retry_or_abandon_binding env e s).1.trace ≡ cleanups s.trace)
  unfolding retry_or_abandon_binding record_binding_readiness finish_binding_deletion
      clear_binding_metrics
  retry_or_abandon_binding-kept e s = ground arith

  abbrev pub started : BindingRound W → BindingRound W
  started s = (start_binding_cleanup env s).1

  unbind_and_finish-OnlyOurs :
      (s : BindingRound W)
      → OnlyOurs (started s) (cleanups s.trace) (cleanups (unbind_and_finish env s).1.trace)
  unfolding unbind_and_finish
  unbind_and_finish-OnlyOurs s =
      let since = start_binding_cleanup-kept s in
      elim (Res-cases (start_binding_cleanup env s).0) [
        | inr (x, failed) ↦ inl (ground (arith, failed, since))
        | inl (_, fine) ↦
            let s2 = (unbind_target env (started s)).1 in
            let after : cleanups (unbind_and_finish env s).1.trace ≡ cleanups s2.trace =
              elim (Res-cases (unbind_target env (started s)).0) [
                | inl (_, done) ↦ ground (arith, fine, done, finish_binding_deletion-kept s2)
                | inr (e, stopped) ↦
                    ground (arith, fine, stopped, retry_or_abandon_binding-kept e s2)
              ] in
            elim (unbind_target-OnlyOurs (started s)) [
              | inl none_ ↦ inl (after ∙ none_ ∙ since)
              | inr (ac, tg, obs, found, seen, ours, one) ↦
                  inr (ac, tg, obs, found, seen, ours, after ∙ one ∙ ap (λ t. tg ∷ t) since)
            ]
      ]

  -- The deletion of a binding takes a certificate away only under the policy `Unbind`, at most once,
  -- and then from the target of the binding, after the provider that the factory made in this round
  -- observed, in the cloud as it then was, that this target has the certificate that the binding
  -- applied last, and belongs to the account that the binding recorded, if it recorded one. The
  -- binding is the one that the API server answered when the grace period was recorded, if this round
  -- had to record it.
  pub reconcile_binding_delete-OnlyOurs :
      (s : BindingRound W)
      → (cleanups (reconcile_binding_delete env s).1.trace ≡ cleanups s.trace)
        ⊎ ((s.b.spec.deletion_policy ≡ unbind)
            × OnlyOurs
                (started s)
                (cleanups s.trace)
                (cleanups (reconcile_binding_delete env s).1.trace))
  unfolding reconcile_binding_delete
  reconcile_binding_delete-OnlyOurs s =
      ground (arith, unbind_and_finish-OnlyOurs s, finish_binding_deletion-kept s)
