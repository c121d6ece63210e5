-- ===== src/Controller/Certificate/Retention/Reclaim.antt =====
-- What `reclaimOldGenerations` removes: from the oldest generation on, as long as the guards hold.
use le_to_alicloud.Prelude.{
  ◌≡◌, ◌⊎◌, inl, inr, ℕ, zero, suc, ◌+◌, ◌-◌, Bool, true, false, none, some, List, ◌∷◌, length,
  arith, ℤ, Res, ok, err, Bool-cases, Option-cases, Res-cases, sym, subst,
}
use le_to_alicloud.Naming.{client_token, delete_token}
use le_to_alicloud.Api.Certificate.{
  AliyunCertificate, CertificateGeneration, min_age_or_default, keep_last_or_default,
}
use le_to_alicloud.Api.Binding.{AliyunCertificateBinding}
use le_to_alicloud.Aliyun.Errors.{Error}
use le_to_alicloud.Controller.World.{Env, Round, Trace, list_bindings, read_clock}
use le_to_alicloud.Controller.World.Traces.{deletions}
use le_to_alicloud.Controller.Certificate.Retention.{
  reclaimable, referring, split_oldest, with_history, live_bindings_for, reclaim_one, reclaim_loop,
  reclaim_old_generations,
}
use le_to_alicloud.Controller.Certificate.Retention.Removed.{
  Removed, Touched, split_oldest-append, Removed-none, Removed-failed, Removed-init,
}

module _ (env : Env) (at : ℕ) (min_age : ℤ) (bindings : List AliyunCertificateBinding) where
  abbrev Spent : CertificateGeneration → Type 0
  Spent g = reclaimable g at min_age bindings ≡ true

  reclaim_one-ac :
      (have : Bool) (g : CertificateGeneration) (s : Round) → (reclaim_one env have g s).1.ac ≡ s.ac
  unfolding reclaim_one
  reclaim_one-ac have g s = ground arith

  reclaim_one-deletes :
      (have : Bool) (g : CertificateGeneration) (s : Round) (id : ℕ)
      → g.cert_id ≡ some id
      → let t' = deletions (reclaim_one env have g s).1.trace in
        (t' ≡ deletions s.trace)
        ⊎ (t' ≡ (id, delete_token (client_token s.ac.uid g.fingerprint)) ∷ deletions s.trace)
  unfolding reclaim_one
  reclaim_one-deletes have g s id e = ground arith

  reclaim_one-nothing :
      (have : Bool) (g : CertificateGeneration) (s : Round)
      → g.cert_id ≡ none
      → deletions (reclaim_one env have g s).1.trace ≡ deletions s.trace
  unfolding reclaim_one
  reclaim_one-nothing have g s e = ground arith

  reclaim_one-Touched :
      (have : Bool) (g : CertificateGeneration) (s : Round)
      → Touched Spent g (deletions s.trace) (deletions (reclaim_one env have g s).1.trace)
  reclaim_one-Touched have g s = elim (Option-cases g.cert_id) [
    | inl e ↦ inl (reclaim_one-nothing have g s e)
    | inr (id, e) ↦ elim (reclaim_one-deletes have g s id e) [
      | inl same ↦ inl same
      | inr one ↦ inr (id, _, e, one)
    ]
  ]

  abbrev loop : ℕ → Bool → Round → Res Error Unit × Round
  loop n have s = reclaim_loop env n at min_age bindings have s

  loop_stops :
      (n : ℕ) (have : Bool) (s : Round)
      → (split_oldest s.ac.status.history ≡ none)
        ⊎ ((init : List CertificateGeneration) × (g : CertificateGeneration) × (split_oldest
                s.ac.status.history
              ≡ some (init, g))
            × (reclaimable g at min_age bindings ≡ false))
      → (loop (suc n) have s).1 ≡ s
  unfolding reclaim_loop
  loop_stops n have s (inl e) = ground (arith, e)
  loop_stops n have s (inr (init, g, e, kept)) = ground (arith, e, kept)

  loop_fails :
      (n : ℕ) (have : Bool) (s : Round) (init : List CertificateGeneration)
      (g : CertificateGeneration) (x : Error)
      → split_oldest s.ac.status.history ≡ some (init, g)
      → reclaimable g at min_age bindings ≡ true
      → (reclaim_one env have g s).0 ≡ err x
      → (loop (suc n) have s).1 ≡ (reclaim_one env have g s).1
  unfolding reclaim_loop
  loop_fails n have s init g x e spent failed = ground (arith, e, spent, failed)

  abbrev shortened : Bool → Round → List CertificateGeneration → CertificateGeneration → Round
  shortened have s init g = record (reclaim_one env have g s).1 {
    ac = with_history init (reclaim_one env have g s).1.ac;
  }

  loop_continues :
      (n : ℕ) (have have' : Bool) (s : Round) (init : List CertificateGeneration)
      (g : CertificateGeneration)
      → split_oldest s.ac.status.history ≡ some (init, g)
      → reclaimable g at min_age bindings ≡ true
      → (reclaim_one env have g s).0 ≡ ok have'
      → loop (suc n) have s ≡ loop n have' (shortened have s init g)
  unfolding reclaim_loop
  loop_continues n have have' s init g e spent fine = ground (arith, e, spent, fine)

  -- from one round to another
  abbrev Step : ℕ → Round → Round → Type 0
  Step n s after =
      Removed Spent n s.ac.status.history (deletions s.trace) after.ac.status.history
        (deletions after.trace)

  reclaim_loop-Step : (n : ℕ) (have : Bool) (s : Round) → Step n s (loop n have s).1
  unfolding reclaim_loop
  reclaim_loop-Step zero have s = Removed-none Spent 0 _ _
  reclaim_loop-Step (suc n) have s = elim (split_oldest-append s.ac.status.history) [
    | inl (e, nil) ↦
        subst (Step (suc n) s) (sym (loop_stops n have s (inl e))) (Removed-none Spent (suc n) _ _)
    | inr (init, g, e, split) ↦ elim (Bool-cases (reclaimable g at min_age bindings)) [
      | inr kept ↦
          subst (Step (suc n) s) (sym (loop_stops n have s (inr (init, g, e, kept))))
            (Removed-none Spent (suc n) _ _)
      | inl spent ↦ elim (Res-cases (reclaim_one env have g s).0) [
        | inr (x, failed) ↦
            subst (Step (suc n) s) (sym (loop_fails n have s init g x e spent failed)) (
              subst
                (λ ac.
                  Removed Spent (suc n) s.ac.status.history (deletions s.trace) ac.status.history
                    (deletions (reclaim_one env have g s).1.trace))
                (sym (reclaim_one-ac have g s))
                (Removed-failed Spent (suc n) _ init g _ _ split spent
                  (reclaim_one-Touched have g s)))
        | inl (have', fine) ↦
            subst (λ r. Step (suc n) s r.1)
              (sym (loop_continues n have have' s init g e spent fine))
              (subst
                (λ h.
                  Removed Spent (suc n) h (deletions s.trace)
                    (loop n have' (shortened have s init g)).1.ac.status.history
                    (deletions (loop n have' (shortened have s init g)).1.trace))
                (sym split)
                (Removed-init Spent n init _ g _ _ _ spent (reclaim_one-Touched have g s)
                  (reclaim_loop-Step n have' (shortened have s init g))))
      ]
    ]
  ]

module _ (env : Env) where
  -- the reading of the bindings and of the clock, before the loop
  abbrev pub listed : Round → Trace
  listed s = read_clock ∷ list_bindings ∷ s.trace

  abbrev pub excess_of : AliyunCertificate → ℕ
  excess_of ac = 1 + length ac.status.history - keep_last_or_default ac.spec.retention

  -- Nothing happens to the history, and nothing is deleted.
  abbrev pub Untouched : Round → Round → Type 0
  Untouched s after =
      (after.ac.status.history ≡ s.ac.status.history) × (deletions after.trace ≡ deletions s.trace)

  -- The oldest generations are removed, the excess at most, with the guards in force on the bindings
  -- that the API server lists.
  abbrev pub Reclaimed : Round → Round → Type 0
  Reclaimed s after =
      (items : List AliyunCertificateBinding) × (env.on_list_bindings s.trace ≡ ok items)
      × Removed
          (λ g.
            reclaimable g (env.clock (list_bindings ∷ s.trace))
              (min_age_or_default s.ac.spec.retention) (referring s.ac.name items)
            ≡ true)
          (excess_of s.ac) s.ac.status.history (deletions s.trace) after.ac.status.history
          (deletions after.trace)

  reclaim_listed :
      (s : Round) (items : List AliyunCertificateBinding)
      → env.on_list_bindings s.trace ≡ ok items
      → Untouched s (reclaim_old_generations env s).1
        ⊎ ((reclaim_old_generations env s).1
            ≡ (reclaim_loop env
                (excess_of s.ac)
                (env.clock (list_bindings ∷ s.trace))
                (min_age_or_default s.ac.spec.retention)
                (referring s.ac.name items)
                false
                (record s { trace = listed s })).1)
  unfolding reclaim_old_generations live_bindings_for
  reclaim_listed s items e = ground arith

  reclaim_unlisted :
      (s : Round) (x : Error)
      → env.on_list_bindings s.trace ≡ err x
      → Untouched s (reclaim_old_generations env s).1
  unfolding reclaim_old_generations live_bindings_for
  reclaim_unlisted s x e = ground arith

  -- A reclaim, whatever fails in it, leaves the history and the cloud alone, or it drops generations
  -- from the old end of the history, no more than the excess over the number to keep, each of them
  -- as old as the minimal age at least and let go by all bindings of this CR that the API server lists; and
  -- it calls for the deletion of no certificate but those of such generations of the history.
  pub reclaim_old_generations-Reclaimed :
      (s : Round)
      → Untouched s (reclaim_old_generations env s).1
        ⊎ Reclaimed s (reclaim_old_generations env s).1
  reclaim_old_generations-Reclaimed s = elim (Res-cases (env.on_list_bindings s.trace)) [
    | inr (x, e) ↦ inl (reclaim_unlisted s x e)
    | inl (items, e) ↦ elim (reclaim_listed s items e) [
      | inl same ↦ inl same
      | inr runs ↦ inr (
          subst (Reclaimed s) (sym runs) (
            items,
            e,
            reclaim_loop-Step env (env.clock (list_bindings ∷ s.trace))
                (min_age_or_default s.ac.spec.retention) (referring s.ac.name items)
                (excess_of s.ac) false (record s { trace = listed s }),
          ))
    ]
  ]
