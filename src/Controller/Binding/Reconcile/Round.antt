-- ===== src/Controller/Binding/Reconcile/Round.antt =====
-- A whole round of the binding controller: which writes it makes, and for whom.
use le_to_alicloud.Prelude.{
  ◌≡◌, ◌⊎◌, refl, inl, inr, true, false, Option, none, some, arith, ◌∷◌, Bool-cases, Option-cases,
  Res, ok, Res-cases, sym, ◌∙◌, subst, ap, ℤ, pos, sub_ℕ,
}
use le_to_alicloud.Api.Certificate.{AliyunCertificate}
use le_to_alicloud.Api.Binding.{AliyunCertificateBinding}
use le_to_alicloud.Aliyun.Errors.{Error}
use le_to_alicloud.Controller.World.{is_api_not_found}
use le_to_alicloud.Controller.Binding.World.{
  BindingEnv, BindingRound, BindingAct, BindingTrace, ◌>>=◌, ◌>>◌, set_lag, get_referred,
  live_get_binding, update_binding, get_certificate, called,
}
use le_to_alicloud.Controller.Binding.World.Traces.{applies}
use le_to_alicloud.Controller.Binding.Conflict.{is_deleting}
use le_to_alicloud.Controller.Binding.Status.{new_binding_round, floor_zero, lagging, applied_lag}
use le_to_alicloud.Controller.Binding.Deletion.Quiet.{reconcile_binding_delete-Still}
use le_to_alicloud.Controller.Binding.Reconcile.{
  cert_issued, observed_generation_of, with_certificate, ensure_finalizer, reconcile_live,
  reconcile_found, reconcile_binding,
}
use le_to_alicloud.Controller.Binding.Reconcile.Writes.{Writes}
use le_to_alicloud.Controller.Binding.Reconcile.Authority.{WroteAsWinner, with_certificate-Wrote}

module _ {W : Type 0} (env : BindingEnv W) where
  -- the state after the question for the certificate
  abbrev pub asked : BindingRound W → BindingRound W
  asked s =
      called (get_certificate s.b.spec.certificate_ref)
        (record s { b = observed_generation_of s.b })

  -- the state once the gauge of the lag is set, and this lag is known
  abbrev pub measured : AliyunCertificate → ℤ → BindingRound W → BindingRound W
  measured ac lag s = record (applied_lag env (some ac) s).1 { lag = lag }

  -- From this state the round asked for the certificate that its binding names, measured its lag, and
  -- then wrote for the certificate that the API server answered. The first writes are those before, the
  -- second those after.
  abbrev pub WroteFor : BindingRound W → Writes → Writes → Type 0
  WroteFor s before after =
      (ac : AliyunCertificate) × (env.on_get_certificate s.trace s.b.spec.certificate_ref ≡ ok ac)
      × (cert_issued env.meta ac ≡ true)
      × (lag : ℤ) × ((applied_lag env (some ac) (asked s)).0 ≡ ok lag)
      × ((measured ac lag (asked s)).b ≡ observed_generation_of s.b)
      × ((measured ac lag (asked s)).cloud ≡ s.cloud)
      × WroteAsWinner env ac (measured ac lag (asked s)) before after

  -- A round from this trace and this cloud reads a binding that is not being deleted, and has this state
  -- once the finalizer is there: that of the binding as read, or as the API server answered it when the
  -- finalizer was added.
  abbrev pub Started : BindingTrace → W → BindingRound W → Type 0
  Started trace cloud s =
      (b : AliyunCertificateBinding) × (env.on_live_get_binding trace ≡ ok b)
      × (is_deleting b ≡ false)
      × ((b.finalizer ≡ true) × (s ≡ new_binding_round b (live_get_binding ∷ trace) cloud)
          ⊎ ((b.finalizer ≡ false)
              × (c : AliyunCertificateBinding) × (env.on_update_binding (live_get_binding ∷ trace)
                    (record b { finalizer = true })
                  ≡ ok c)
              × (s
                  ≡ new_binding_round c
                      (update_binding (record b { finalizer = true }) ∷ live_get_binding ∷ trace)
                      cloud)))

  -- the writes of a run
  abbrev writes : Res Error ℤ × BindingRound W → Writes
  writes (r, s) = applies s.trace

  applied_lag-quiet :
      (ac : Option AliyunCertificate) (s : BindingRound W)
      → (lag : ℤ) × ((applied_lag env ac s).0 ≡ ok lag)
        × ((applied_lag env ac s).1.b ≡ s.b)
        × ((applied_lag env ac s).1.cloud ≡ s.cloud)
        × (applies (applied_lag env ac s).1.trace ≡ applies s.trace)
  unfolding applied_lag
  applied_lag-quiet ac s = elim (Option-cases (lagging s.b ac)) [
    | inl e ↦ (pos 0, ground (arith, e), ground (arith, e), ground (arith, e), ground (arith, e))
    | inr (g, e) ↦ (
      floor_zero (sub_ℕ (env.clock s.trace) g.uploaded_at),
      ground (arith, e),
      ground (arith, e),
      ground (arith, e),
      ground (arith, e),
    )
  ]

  abbrev rest : Option AliyunCertificate → BindingAct W ℤ
  rest ac = do lag ← applied_lag env ac; set_lag lag; with_certificate env ac

  -- no write, or one as above
  abbrev Wrote : BindingRound W → Writes → Writes → Type 0
  Wrote s before after = (after ≡ before) ⊎ WroteFor s before after

  Wrote-along :
      (s : BindingRound W) (before before' after after' : Writes)
      → before ≡ before'
      → after ≡ after'
      → Wrote s before after
      → Wrote s before' after'
  Wrote-along s before before' after after' e f w =
      subst (λ t. Wrote s before' t) f (subst (λ t. Wrote s t after) e w)

  rest-Wrote :
      (ac : AliyunCertificate) (s : BindingRound W)
      → env.on_get_certificate s.trace s.b.spec.certificate_ref ≡ ok ac
      → Wrote s (applies s.trace) (applies (rest (some ac) (asked s)).1.trace)
  rest-Wrote ac s known =
      let (lag, runs, same_b, still, quiet) = applied_lag-quiet (some ac) (asked s) in
      let s2 = measured ac lag (asked s) in
      let e : rest (some ac) (asked s) ≡ with_certificate env (some ac) s2 = ground (arith, runs) in
      elim (with_certificate-Wrote env (some ac) s2) [
        | inl none_ ↦ inl (ap writes e ∙ none_ ∙ quiet)
        | inr (k, same, issued, w) ↦
            let here : k ≡ ac = cc in
            Wrote-along s _ _ _ _ quiet (ap writes (sym e)) (
              inr (
                ac,
                known,
                subst (λ x. cert_issued env.meta x ≡ true) here issued,
                lag,
                runs,
                same_b,
                still,
                subst
                    (λ x.
                      WroteAsWinner env x s2 (applies s2.trace)
                        (applies (with_certificate env (some ac) s2).1.trace))
                    here w,
              ))
      ]

  rest-none : (s : BindingRound W) → applies (rest none s).1.trace ≡ applies s.trace
  rest-none s =
      let (lag, runs, same_b, still, quiet) = applied_lag-quiet none s in
      let s2 : BindingRound W = record (applied_lag env none s).1 { lag = lag } in
      let e : rest none s ≡ with_certificate env none s2 = ground (arith, runs) in
      elim (with_certificate-Wrote env none s2) [
        | inl still ↦ ap writes e ∙ still ∙ quiet
        | inr (k, absent, _, _) ↦ absurd cc
      ]

  -- the round once the finalizer is there
  abbrev observed : BindingAct W ℤ
  observed = do
    (λ s. (ok tt, record s { b = observed_generation_of s.b }))
    ac ← get_referred env
    rest ac

  observed-Wrote : (s : BindingRound W) → Wrote s (applies s.trace) (applies (observed s).1.trace)
  observed-Wrote s = elim (Res-cases (env.on_get_certificate s.trace s.b.spec.certificate_ref)) [
    | inl (ac, there) ↦
        let e : observed s ≡ rest (some ac) (asked s) = ground (arith, there) in
        Wrote-along s _ _ _ _ refl (ap writes (sym e)) (rest-Wrote ac s there)
    | inr (e, failed) ↦ elim (Bool-cases (is_api_not_found e)) [
      | inl missing ↦
          let runs : observed s ≡ rest none (asked s) = ground (arith, failed, missing) in
          inl (ap writes runs ∙ rest-none (asked s))
      | inr broken ↦ inl (ground (arith, failed, broken))
    ]
  ]

  round_cases :
      (trace : BindingTrace) (cloud : W) (s : BindingRound W)
      → Started trace cloud s
      → applies s.trace ≡ applies trace
      → (reconcile_binding env trace cloud).1.0 ≡ (observed s).1.trace
      → (applies (reconcile_binding env trace cloud).1.0 ≡ applies trace)
        ⊎ ((s : BindingRound W) × Started trace cloud s
            × WroteFor s (applies trace) (applies (reconcile_binding env trace cloud).1.0))
  round_cases trace cloud s start quiet runs =
      elim (Wrote-along s _ _ _ _ quiet (ap applies (sym runs)) (observed-Wrote s)) [
        | inl none_ ↦ inl none_
        | inr w ↦ inr (s, start, w)
      ]

  -- A round of the controller writes to a target at most once, and then this holds: the binding read
  -- at the start was not being deleted, and has its finalizer or was sent with it and is the one that the API server then answered;
  -- the API server answered the certificate that this binding names, and it is issued; the binding wins
  -- its target by UID, of the list that the API server then answered; the material written is what the
  -- certificate's Secret then had, covers the domains of the target, is of the generation that the
  -- certificate has as current, and passed the gate of the uploads; and the provider that the factory
  -- answered in this round observed the target, in the cloud as it was at the start of the round, in the
  -- account that the binding has recorded, if any, and with another certificate or without HTTPS that
  -- was asked for.
  pub reconcile_binding-Wrote :
      (trace : BindingTrace) (cloud : W)
      → (applies (reconcile_binding env trace cloud).1.0 ≡ applies trace)
        ⊎ ((s : BindingRound W) × Started trace cloud s
            × WroteFor s (applies trace) (applies (reconcile_binding env trace cloud).1.0))
  unfolding reconcile_binding reconcile_found reconcile_live ensure_finalizer new_binding_round
  reconcile_binding-Wrote trace cloud = elim (Res-cases (env.on_live_get_binding trace)) [
    | inr (e, failed) ↦ inl (ground (arith, failed))
    | inl (b, there) ↦
        let s = new_binding_round b (live_get_binding ∷ trace) cloud in
        elim (Bool-cases (is_deleting b)) [
          | inl leaves ↦ inl (ground (arith, there, leaves, reconcile_binding_delete-Still env s))
          | inr stays ↦ elim (Bool-cases b.finalizer) [
            | inl kept ↦
                round_cases trace cloud s (b, there, stays, inl (kept, refl)) refl
                  (ground (arith, there, stays, kept))
            | inr missing ↦
                let fixed = record b { finalizer = true } in
                elim (Res-cases (env.on_update_binding (live_get_binding ∷ trace) fixed)) [
                  | inr (e, refused) ↦ inl (ground (arith, there, stays, missing, refused))
                  | inl (c, fine) ↦
                      round_cases trace cloud
                        (new_binding_round c (update_binding fixed ∷ live_get_binding ∷ trace)
                          cloud)
                        (b, there, stays, inr (missing, c, fine, refl)) refl
                        (ground (arith, there, stays, missing, fine))
                ]
          ]
        ]
  ]
