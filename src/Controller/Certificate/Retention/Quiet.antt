-- ===== src/Controller/Certificate/Retention/Quiet.antt =====
-- A reclaim syncs no Certificate.
use le_to_alicloud.Prelude.{
  ◌≡◌, refl, ℕ, zero, suc, Bool, false, List, ◌∷◌, ℤ, arith, Res-cases, Option-cases, inl, inr,
}
use le_to_alicloud.Api.Certificate.{CertificateGeneration}
use le_to_alicloud.Api.Certificate.{min_age_or_default}
use le_to_alicloud.Api.Binding.{AliyunCertificateBinding}
use le_to_alicloud.Controller.World.{Env, Round, list_bindings}
use le_to_alicloud.Controller.World.Traces.{syncs}
use le_to_alicloud.Controller.Certificate.Retention.{
  split_oldest, live_bindings_for, referring, reclaim_one, reclaim_loop, reclaim_old_generations,
  with_history,
}
use le_to_alicloud.Controller.Certificate.Retention.Reclaim.{listed, excess_of}

module _ (env : Env) where
  reclaim_one-syncs :
      (have : Bool) (g : CertificateGeneration) (s : Round)
      → syncs (reclaim_one env have g s).1.trace ≡ syncs s.trace
  unfolding reclaim_one
  reclaim_one-syncs have g s = ground arith

  reclaim_loop-syncs :
      (n at : ℕ) (min_age : ℤ) (bs : List AliyunCertificateBinding) (have : Bool) (s : Round)
      → syncs (reclaim_loop env n at min_age bs have s).1.trace ≡ syncs s.trace
  unfolding reclaim_loop
  reclaim_loop-syncs zero at min_age bs have s = refl
  reclaim_loop-syncs (suc n) at min_age bs have s =
      elim (Option-cases (split_oldest s.ac.status.history)) [
        | inl e ↦ ground (arith, e)
        | inr ((init, g), e) ↦ elim (Res-cases (reclaim_one env have g s).0) [
          | inr (x, failed) ↦ ground (arith, e, failed, reclaim_one-syncs have g s)
          | inl (have', fine) ↦ ground (
            arith,
            e,
            fine,
            reclaim_one-syncs have g s,
            reclaim_loop-syncs n at min_age bs have' (record (reclaim_one env have g s).1 {
              ac = with_history init (reclaim_one env have g s).1.ac;
            }),
          )
        ]
      ]

  pub reclaim_old_generations-syncs :
      (s : Round) → syncs (reclaim_old_generations env s).1.trace ≡ syncs s.trace
  unfolding reclaim_old_generations live_bindings_for
  reclaim_old_generations-syncs s = elim (Res-cases (env.on_list_bindings s.trace)) [
    | inr (x, e) ↦ ground (arith, e)
    | inl (items, e) ↦ ground (
      arith,
      e,
      reclaim_loop-syncs (excess_of env s.ac) (env.clock (list_bindings ∷ s.trace))
          (min_age_or_default s.ac.spec.retention) (referring s.ac.name items) false
          (record s { trace = listed env s }),
    )
  ]
