-- ===== src/Controller/Certificate/Probe/Quiet.antt =====
-- A probe syncs no Certificate.
use le_to_alicloud.Prelude.{
  ◌≡◌, refl, ℕ, Option, none, some, ◌∷◌, Text, arith, Option-cases, inl, inr,
}
use le_to_alicloud.Api.Certificate.{CertificateGeneration}
use le_to_alicloud.Controller.World.{Env, Round, read_clock}
use le_to_alicloud.Controller.World.Traces.{syncs}
use le_to_alicloud.Controller.Certificate.Probe.{to_probe, probed_lately, ask_cloud, probe_cas}

module _ (env : Env) where
  ask_cloud-syncs :
      (primary : Text) (g : CertificateGeneration) (id : ℕ) (s : Round)
      → syncs (ask_cloud env primary g id s).1.trace ≡ syncs s.trace
  unfolding ask_cloud
  ask_cloud-syncs primary g id s = ground arith

  probed_lately-syncs :
      (o : Option ℕ) (s : Round) → syncs (probed_lately env o s).1.trace ≡ syncs s.trace
  unfolding probed_lately
  probed_lately-syncs none s = refl
  probed_lately-syncs (some t) s = refl

  pub probe_cas-syncs :
      (primary : Text) (s : Round) → syncs (probe_cas env primary s).1.trace ≡ syncs s.trace
  unfolding probe_cas
  probe_cas-syncs primary s = elim (Option-cases (to_probe s.ac)) [
    | inl e ↦ ground (arith, e)
    | inr ((g, id), e) ↦
        let s1 = record s { trace = read_clock ∷ s.trace } in
        let s2 = (probed_lately env s.ac.status.cas_probed_at s1).1 in
        ground (
          arith,
          e,
          probed_lately-syncs s.ac.status.cas_probed_at s1,
          ask_cloud-syncs primary g id s2,
        )
  ]
