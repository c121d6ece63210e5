-- ===== src/Controller/Certificate/Probe/Effect.antt =====
-- What a probe of the cloud changes.
use le_to_alicloud.Prelude.{
  ◌≡◌, ◌⊎◌, refl, inl, inr, ℕ, Bool, true, false, Option, none, some, List, [], ◌∷◌, Text, arith,
  Res, ok, err, Option-cases, Bool-cases, subst, sym, Res-cases, codes, ltb,
}
use le_to_alicloud.Api.Certificate.{CertificateGeneration}
use le_to_alicloud.Aliyun.Errors.{Error}
use le_to_alicloud.Controller.World.{
  Env, Round, Trace, CertSummary, new_cas_client, event_warning, read_clock, cas_find,
}
use le_to_alicloud.Controller.Certificate.Upload.{cas_find_hint}
use le_to_alicloud.Controller.Certificate.Probe.{
  lists_id, to_probe, probed_lately, ask_cloud, probe_cas,
}

module _ (env : Env) where
  -- The generations and the record are as before.
  abbrev pub UploadsKept : Round → Round → Type 0
  UploadsKept s after =
      (after.ac.status.current ≡ s.ac.status.current)
      × (after.ac.status.history ≡ s.ac.status.history)
      × (after.ac.status.pending_upload ≡ s.ac.status.pending_upload)

  -- In the round the cloud was asked with the hint and listed certificates, but not the one with
  -- this certId, and the current generation lost its certId and its fingerprint.
  abbrev pub Forgotten : Text → CertificateGeneration → ℕ → Round → Round → Type 0
  Forgotten primary g id s after =
      (at : Trace) × (list : List CertSummary) × (after.trace
        ≡ event_warning (codes "CASCertificateMissing")
          ∷ read_clock
          ∷ cas_find (cas_find_hint s.ac primary)
          ∷ at)
      × (env.on_cas_find at (cas_find_hint s.ac primary) ≡ ok list)
      × (lists_id id list ≡ false)
      × (after.ac.status.current ≡ some (record g { cert_id = none; fingerprint = [] }))
      × (after.ac.status.history ≡ s.ac.status.history)
      × (after.ac.status.pending_upload ≡ s.ac.status.pending_upload)

  abbrev Asked : Text → CertificateGeneration → ℕ → Round → Res Error Bool → Round → Type 0
  Asked primary g id s (ok true) after = Forgotten primary g id s after
  Asked primary g id s _ after = UploadsKept s after

  abbrev asking : Round → Trace
  asking s = new_cas_client ∷ s.trace

  ask_cloud-Asked :
      (primary : Text) (g : CertificateGeneration) (id : ℕ) (s : Round)
      → Asked primary g id s (ask_cloud env primary g id s).0 (ask_cloud env primary g id s).1
  unfolding ask_cloud
  ask_cloud-Asked primary g id s = elim (Res-cases (env.on_new_cas_client s.trace s.ac)) [
    | inr (x, failed) ↦ ground (arith, failed)
    | inl (c, made) ↦ elim (Res-cases (env.on_cas_find (asking s) (cas_find_hint s.ac primary))) [
      | inr (x, failed) ↦ ground (arith, made, failed)
      | inl (list, found) ↦ elim (Bool-cases (lists_id id list)) [
        | inl there ↦ ground (arith, made, found, there)
        | inr gone ↦ rw (made, found, gone) (asking s, list, refl, found, gone, refl, refl, refl)
      ]
    ]
  ]

  abbrev pub Probed : Text → Round → Res Error Bool → Round → Type 0
  Probed primary s (ok true) after =
      (g : CertificateGeneration) × (id : ℕ) × (to_probe s.ac ≡ some (g, id))
      × Forgotten primary g id s after
  Probed primary s _ after = UploadsKept s after

  probed_lately_lem :
      (o : Option ℕ) (s : Round)
      → ((lately : Bool) × ((probed_lately env o s).0 ≡ ok lately))
        × ((probed_lately env o s).1.ac ≡ s.ac)
  unfolding probed_lately
  probed_lately_lem none s = ((false, refl), refl)
  probed_lately_lem (some t) s = ((_, refl), refl)

  -- the round when the cloud is asked
  abbrev before_asking : Round → Round
  before_asking s =
      (probed_lately env s.ac.status.cas_probed_at (record s { trace = read_clock ∷ s.trace })).1

  probe_cas_asks :
      (primary : Text) (g : CertificateGeneration) (id : ℕ) (s : Round)
      → to_probe s.ac ≡ some (g, id)
      → ((probe_cas env primary s).0 ≡ ok false) × UploadsKept s (probe_cas env primary s).1
        ⊎ (probe_cas env primary s ≡ ask_cloud env primary g id (before_asking s))
  unfolding probe_cas
  probe_cas_asks primary g id s e =
      let (found, same) =
        probed_lately_lem s.ac.status.cas_probed_at (record s { trace = read_clock ∷ s.trace }) in
      elim (Bool-cases (ltb g.not_after (env.clock s.trace))) [
        | inl expired ↦ inl (ground (arith, e, expired))
        | inr live ↦ elim (Bool-cases found.0) [
          | inl lately ↦ inl (ground (arith, e, live, found.1, lately, same))
          | inr due ↦ inr (ground (arith, e, live, found.1, due, same))
        ]
      ]

  to_probed :
      (primary : Text) (g : CertificateGeneration) (id : ℕ) (s : Round) (r : Res Error Bool)
      (after : Round)
      → to_probe s.ac ≡ some (g, id)
      → Asked primary g id s r after
      → Probed primary s r after
  to_probed primary g id s (ok true) after e h = (g, id, e, h)
  to_probed primary g id s (ok false) after e h = h
  to_probed primary g id s (err x) after e h = h

  Asked-at :
      (primary : Text) (g : CertificateGeneration) (id : ℕ) (s s' : Round) (r : Res Error Bool)
      (after : Round)
      → s'.ac ≡ s.ac
      → Asked primary g id s' r after
      → Asked primary g id s r after
  Asked-at primary g id s s' (ok true) after e h =
      subst (λ ac. Forgotten primary g id (record s' { ac = ac }) after) e h
  Asked-at primary g id s s' (ok false) after e h = ground (arith, e, h)
  Asked-at primary g id s s' (err x) after e h = ground (arith, e, h)

  probe_cas-idle :
      (primary : Text) (s : Round)
      → to_probe s.ac ≡ none
      → Probed primary s (probe_cas env primary s).0 (probe_cas env primary s).1
  unfolding probe_cas
  probe_cas-idle primary s e = ground (arith, e)

  kept_false :
      (primary : Text) (s after : Round) (r : Res Error Bool)
      → r ≡ ok false
      → UploadsKept s after
      → Probed primary s r after
  kept_false primary s after r e h = subst (λ x. Probed primary s x after) (sym e) h

  -- A probe that answers true asked the cloud for the certificates that match its hint, did not find
  -- the current certId in the answer, and cleared the certId and the fingerprint of the current
  -- generation. Any other probe, failed ones included, leaves the current generation as it is; none
  -- changes the history or the write-ahead record.
  pub probe_cas-Probed :
      (primary : Text) (s : Round)
      → Probed primary s (probe_cas env primary s).0 (probe_cas env primary s).1
  probe_cas-Probed primary s = elim (Option-cases (to_probe s.ac)) [
    | inl e ↦ probe_cas-idle primary s e
    | inr ((g, id), e) ↦ elim (probe_cas_asks primary g id s e) [
      | inl (r, kept) ↦ kept_false primary s _ _ r kept
      | inr runs ↦
          subst (λ x. Probed primary s x.0 x.1) (sym runs)
            (to_probed primary g id s _ _ e (
              Asked-at primary g id s (before_asking s) _ _
                (probed_lately_lem s.ac.status.cas_probed_at
                  (record s { trace = read_clock ∷ s.trace })).1
                (ask_cloud-Asked primary g id (before_asking s))))
    ]
  ]
