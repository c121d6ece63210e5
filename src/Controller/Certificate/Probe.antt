-- ===== src/Controller/Certificate/Probe.antt =====
-- internal/controller/probe.go.
pub mod Effect
pub mod Quiet
use le_to_alicloud.Prelude.{
  ℕ, Bool, true, false, ◌||◌, not, Option, none, some, List, [], ◌∷◌, Text, codes, ◌==◌, ltb,
  if◌then◌else◌, Res, ok, err, ℤ, ltb_ℤ, sub_ℕ,
}
use le_to_alicloud.Api.Certificate.{AliyunCertificate, CertificateGeneration, upload_enabled}
use le_to_alicloud.Controller.World.{
  Env, Call, cas_find, CertSummary, Round, Act, pure, gets, perform, ◌>>=◌, ◌>>◌, set_ac, event,
  now, cas_client,
}
use le_to_alicloud.Controller.Certificate.Upload.{cas_find_hint}

-- the loop over the listed certificates
unfoldable pub lists_id : ℕ → List CertSummary → Bool
lists_id id [] = false
lists_id id (c ∷ cs) = if c.cert_id == id then true else lists_id id cs

-- the current generation with its certId, if the probe concerns it
unfoldable pub to_probe : AliyunCertificate → Option (CertificateGeneration × ℕ)
to_probe ac = if not (upload_enabled ac.spec.aliyun) then none else elim ac.status.current [
  | none ↦ none
  | some g ↦ elim g.cert_id [ none ↦ none | some id ↦ some (g, id) ]
]

abbrev pub probed_at : ℕ → AliyunCertificate → AliyunCertificate
probed_at at ac = record ac { status = record ac.status { cas_probed_at = some at } }

-- the current generation without certId and fingerprint
abbrev pub forget : CertificateGeneration → AliyunCertificate → AliyunCertificate
forget g ac = record ac {
  status = record ac.status { current = some (record g { cert_id = none; fingerprint = [] }) };
}

module _ (env : Env) where
  -- `ac.Status.CASProbedAt != nil && r.now().Sub(ac.Status.CASProbedAt.Time) < r.CASProbeInterval`
  pub probed_lately : Option ℕ → Act Bool
  probed_lately none = pure false
  probed_lately (some t) = do at ← now env; pure (ltb_ℤ (sub_ℕ at t) env.cas_probe_interval)

  -- the question to the cloud
  pub ask_cloud : Text → CertificateGeneration → ℕ → Act Bool
  ask_cloud primary g id = do
    cas_client env
    ac ← gets (λ s. s.ac)
    let hint = cas_find_hint ac primary
    list ← perform (cas_find hint) (λ t. env.on_cas_find t hint)
    at ← now env
    set_ac (probed_at at)
    if lists_id id list
        then pure false
        else do event false (codes "CASCertificateMissing"); set_ac (forget g); pure true

  -- `probeCAS`
  unfoldable pub probe_cas : Text → Act Bool
  probe_cas primary = do
    ac ← gets (λ s. s.ac)
    elim (to_probe ac) [
      | none ↦ pure false
      | some (g, id) ↦ do
        at ← now env
        if ltb g.not_after at then pure false else do
          lately ← probed_lately ac.status.cas_probed_at
          if lately then pure false else ask_cloud primary g id
    ]

  -- `noteProbeFailure`
  abbrev pub note_probe_failure : Act Unit
  note_probe_failure = event false (codes "ProbeFailed")
