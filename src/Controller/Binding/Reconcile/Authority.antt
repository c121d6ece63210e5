-- ===== src/Controller/Binding/Reconcile/Authority.antt =====
-- Which binding writes which certificate.
use le_to_alicloud.Prelude.{
  ◌≡◌, ◌⊎◌, refl, inl, inr, true, Option, none, some, arith, text_eq, Bool-cases, Option-cases, Res,
  ok, err, Res-cases, sym, ◌∙◌, subst, ap, ℤ,
}
use le_to_alicloud.Api.Conditions.{Reason, is_true, is_false, conflict}
use le_to_alicloud.Api.Certificate.{AliyunCertificate}
use le_to_alicloud.Api.Binding.{AliyunCertificateBinding}
use le_to_alicloud.Aliyun.Errors.{Error}
use le_to_alicloud.Provider.Types.{CertMaterial}
use le_to_alicloud.Controller.Secrets.{serving_secret_name}
use le_to_alicloud.Controller.Certificate.Material.{bundle_of}
use le_to_alicloud.Controller.Binding.World.{
  BindingEnv, BindingRound, BindingTrace, called, get_secret,
}
use le_to_alicloud.Controller.Binding.World.Traces.{applies}
use le_to_alicloud.Controller.Binding.Conflict.{arbitrate}
use le_to_alicloud.Controller.Binding.Material.{
  load_binding_material, check_domain_coverage, required_domains_of,
}
use le_to_alicloud.Controller.Binding.Identity.{capabilities_of, ensure_https_of, target_of}
use le_to_alicloud.Controller.Binding.Status.{
  set_binding_condition, set_binding_ready_false, aggregate_binding_ready,
}
use le_to_alicloud.Controller.Binding.Reconcile.{
  cert_issued, covered_or, arbitrated, checked_material, pass_gates, as_winner, as_loser,
  reconcile_binding_ready, with_certificate,
}
use le_to_alicloud.Controller.Binding.Reconcile.Quiet.{with_b, patch-Untouched}
use le_to_alicloud.Controller.Binding.Reconcile.Writes.{Writes, WroteGated, pass_gates-Wrote}

module _ {W : Type 0} (env : BindingEnv W) where
  -- the material that the Secret holds, at a trace
  abbrev pub material : AliyunCertificate → BindingTrace → Res Reason CertMaterial
  material ac at =
      load_binding_material env.crypto (λ name. bundle_of env.crypto (env.on_get_secret at name)) ac

  abbrev pub no_conflict : BindingRound W → BindingRound W
  no_conflict = with_b env (set_binding_condition env.meta conflict is_false Reason.no_conflict)

  -- the round after the list of the bindings with the target
  abbrev pub listed : BindingRound W → BindingRound W
  listed s = (arbitrated env s).1

  -- the round after the read of the Secret
  abbrev pub loaded : AliyunCertificate → BindingRound W → BindingRound W
  loaded ac s = called (get_secret (serving_secret_name ac ac.status.secret_name)) (no_conflict s)

  -- The material that was written is the one that the Secret has in this state of the round; it
  -- covers the domains of the target.
  abbrev pub WroteMaterial :
      AliyunCertificate → AliyunCertificateBinding → BindingRound W → Writes → Writes → Type 0
  WroteMaterial ac b s before after =
      (m : CertMaterial) × (material ac s.trace ≡ ok m)
      × (check_domain_coverage env.to_lower m b ≡ none)
      × WroteGated env ac b (loaded ac s) m before after

  Wrote-conditions :
      (ac : AliyunCertificate) (m : CertMaterial) (s v : BindingRound W) (before after : Writes)
      → WroteGated env ac (no_conflict s).b v m before after
      → WroteGated env ac s.b v m before after
  unfolding set_binding_condition target_of capabilities_of ensure_https_of
  Wrote-conditions ac m s v before after h = h

  covered_or-ok :
      (b : AliyunCertificateBinding) (r : Res Reason CertMaterial) (m : CertMaterial)
      → covered_or env.to_lower b r ≡ ok m
      → (r ≡ ok m) × (check_domain_coverage env.to_lower m b ≡ none)
  covered_or-ok b (err x) m h = absurd cc
  covered_or-ok b (ok k) m h = elim (Option-cases (check_domain_coverage env.to_lower k b)) [
    | inl e ↦ ground (arith, h, e)
    | inr (x, e) ↦ absurd (ground (arith, h, e))
  ]

  as_winner_runs :
      (ac : AliyunCertificate) (m : CertMaterial) (s : BindingRound W)
      → covered_or env.to_lower (no_conflict s).b (material ac s.trace) ≡ ok m
      → as_winner env ac s ≡ pass_gates env ac m (loaded ac s)
  unfolding as_winner checked_material
  as_winner_runs ac m s fine = ground (arith, fine)

  coverage-conditions :
      (m : CertMaterial) (s : BindingRound W)
      → check_domain_coverage env.to_lower m (no_conflict s).b
        ≡ check_domain_coverage env.to_lower m s.b
  unfolding check_domain_coverage required_domains_of set_binding_condition
  coverage-conditions m s = refl

  as_winner-Wrote :
      (ac : AliyunCertificate) (s : BindingRound W)
      → (applies (as_winner env ac s).1.trace ≡ applies s.trace)
        ⊎ WroteMaterial ac s.b s (applies s.trace) (applies (as_winner env ac s).1.trace)
  unfolding as_winner checked_material
  as_winner-Wrote ac s =
      elim (Res-cases (covered_or env.to_lower (no_conflict s).b (material ac s.trace))) [
        | inr (r, refused) ↦ inl (
            ground (
              arith,
              refused,
              patch-Untouched env (with_b env (set_binding_ready_false env.meta r) (loaded ac s)),
            ))
        | inl (m, fine) ↦ elim (pass_gates-Wrote env ac m (loaded ac s)) [
          | inl none_ ↦ inl (ground (arith, fine, none_))
          | inr h ↦
              let (found, covered) = covered_or-ok (no_conflict s).b (material ac s.trace) m fine in
              inr (
                m,
                found,
                sym (coverage-conditions m s) ∙ covered,
                subst
                    (λ x.
                      WroteGated env ac s.b (loaded ac s) m (applies s.trace) (applies x.1.trace))
                    (sym (as_winner_runs ac m s fine))
                    (Wrote-conditions ac m s (loaded ac s) _ _ h),
              )
        ]
      ]

  -- Of the bindings with the target, the list that the API server answered says that this one wins.
  abbrev pub WroteAsWinner : AliyunCertificate → BindingRound W → Writes → Writes → Type 0
  WroteAsWinner ac s before after =
      (w : AliyunCertificateBinding) × (arbitrate (λ key. env.on_list_by_target s.trace key) s.b
        ≡ ok w)
      × (text_eq w.uid s.b.uid ≡ true)
      × ((listed s).cloud ≡ s.cloud)
      × WroteMaterial ac s.b (listed s) before after

  listed-kept :
      (s : BindingRound W)
      → ((listed s).b ≡ s.b)
        × (applies (listed s).trace ≡ applies s.trace)
        × ((listed s).cloud ≡ s.cloud)
  unfolding arbitrated
  listed-kept s = ground arith

  reconcile_binding_ready_wins :
      (ac : AliyunCertificate) (w : AliyunCertificateBinding) (s : BindingRound W)
      → arbitrate (λ key. env.on_list_by_target s.trace key) s.b ≡ ok w
      → text_eq w.uid s.b.uid ≡ true
      → reconcile_binding_ready env ac s ≡ as_winner env ac (listed s)
  unfolding reconcile_binding_ready arbitrated
  reconcile_binding_ready_wins ac w s known same = ground (arith, known, same)

  WroteMaterial-along :
      (ac : AliyunCertificate) (s : BindingRound W) (b b' : AliyunCertificateBinding)
      (before before' after after' : Writes)
      → b' ≡ b
      → before' ≡ before
      → after' ≡ after
      → WroteMaterial ac b' s before' after'
      → WroteMaterial ac b s before after
  WroteMaterial-along ac s b b' before before' after after' eb e f h =
      subst (λ x. WroteMaterial ac x s before after) eb
        (subst (λ t. WroteMaterial ac b' s t after) e
          (subst (λ t. WroteMaterial ac b' s before' t) f h))

  reconcile_binding_ready-Wrote :
      (ac : AliyunCertificate) (s : BindingRound W)
      → (applies (reconcile_binding_ready env ac s).1.trace ≡ applies s.trace)
        ⊎ WroteAsWinner ac s (applies s.trace) (applies (reconcile_binding_ready env ac s).1.trace)
  unfolding reconcile_binding_ready as_loser arbitrated
  reconcile_binding_ready-Wrote ac s =
      let (same_b, kept, still) = listed-kept s in
      elim (Res-cases (arbitrate (λ key. env.on_list_by_target s.trace key) s.b)) [
        | inr (e, failed) ↦ inl (ground (arith, failed, kept))
        | inl (w, known) ↦ elim (Bool-cases (text_eq w.uid s.b.uid)) [
          | inr other ↦ inl (
              ground (
                arith,
                known,
                other,
                kept,
                same_b,
                patch-Untouched env (
                    with_b env
                      (λ b. aggregate_binding_ready env.meta (
                        set_binding_condition env.meta conflict is_true Reason.conflicting_binding
                          b))
                      (listed s)),
              ))
          | inl same ↦
              let runs =
                ap (λ (x : Res Error ℤ × BindingRound W). applies x.1.trace)
                  (sym (reconcile_binding_ready_wins ac w s known same)) in
              elim (as_winner-Wrote ac (listed s)) [
                | inl none_ ↦ inl (sym runs ∙ none_ ∙ kept)
                | inr h ↦ inr (
                  w,
                  known,
                  same,
                  still,
                  WroteMaterial-along ac (listed s) s.b (listed s).b _ _ _ _ same_b kept runs h,
                )
              ]
        ]
      ]

  -- A round with an answer to its question for the certificate writes to a target at most once, and
  -- then this holds: the certificate is issued; the binding that wins the target has the UID of this
  -- one; the material written was in the certificate's Secret, covers the domains of the target, is of
  -- the generation that the certificate has as current, and passed the gate of the uploads; and the
  -- target had been observed in the right account, without this certificate or without HTTPS that was
  -- asked for. The options are those of the binding.
  pub with_certificate-Wrote :
      (o : Option AliyunCertificate) (s : BindingRound W)
      → (applies (with_certificate env o s).1.trace ≡ applies s.trace)
        ⊎ ((ac : AliyunCertificate) × (o ≡ some ac)
            × (cert_issued env.meta ac ≡ true)
            × WroteAsWinner ac s (applies s.trace) (applies (with_certificate env o s).1.trace))
  unfolding with_certificate
  with_certificate-Wrote none s = inl (
      ground (
        arith,
        patch-Untouched env
            (with_b env (set_binding_ready_false env.meta Reason.certificate_not_found) s),
      ))
  with_certificate-Wrote (some ac) s = elim (Bool-cases (cert_issued env.meta ac)) [
    | inr waits ↦ inl (
        ground (
          arith,
          waits,
          patch-Untouched env
              (with_b env (set_binding_ready_false env.meta Reason.certificate_not_ready) s),
        ))
    | inl there ↦ elim (reconcile_binding_ready-Wrote ac s) [
      | inl none_ ↦ inl (ground (arith, there, none_))
      | inr (w, known, same, still, h) ↦ inr (
        ac,
        refl,
        there,
        (
          w,
          known,
          same,
          still,
          WroteMaterial-along ac (listed s) s.b s.b _ _ _ _ refl refl (ground (arith, there)) h,
        ),
      )
    ]
  ]
