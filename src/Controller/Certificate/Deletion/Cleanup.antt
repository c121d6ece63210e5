-- ===== src/Controller/Certificate/Deletion/Cleanup.antt =====
-- What `cleanupCAS` leaves behind.
use le_to_alicloud.Prelude.{
  ◌≡◌, ◌⊎◌, refl, inl, inr, true, false, Option, none, some, List, [], ◌∷◌, ◌++◌, append_assoc,
  arith, is_ok, ok, append-nil, not, ◌&&◌, is_some, Res-cases, err, Option-cases, Bool-cases, ◌∙◌,
  ap, sym,
}
use le_to_alicloud.Api.Certificate.{CertificateGeneration, PendingUpload}
use le_to_alicloud.Aliyun.Errors.{Error}
use le_to_alicloud.Controller.World.{Env, Round, new_cas_client}
use le_to_alicloud.Controller.Certificate.Retention.{with_history}
use le_to_alicloud.Controller.Certificate.Deletion.{
  history_ids, remaining_cert_ids, delete_certificate, delete_generation, cleanup_history,
  cleanup_current, cleanup_pending_upload, cleanup_cas, is_nil,
}

module _ (env : Env) where
  delete_generation-ac :
      (g : CertificateGeneration) (s : Round) → (delete_generation env g s).1.ac ≡ s.ac
  unfolding delete_generation delete_certificate
  delete_generation-ac g s = ground arith

  delete_generation-id :
      (g g' : CertificateGeneration) (s : Round)
      → (delete_generation env g s).0 ≡ ok g'
      → g'.cert_id ≡ none
  unfolding delete_generation delete_certificate
  delete_generation-id g g' s e = elim (Option-cases g.cert_id) [
    | inl h ↦ ground (arith, h)
    | inr (id, h) ↦ ground (arith, h)
  ]

  ids_snoc :
      (done : List CertificateGeneration) (g : CertificateGeneration)
      → history_ids done ≡ []
      → g.cert_id ≡ none
      → history_ids (done ++ g ∷ []) ≡ []
  ids_snoc [] g h e = rw e refl
  ids_snoc (x ∷ xs) g h e = elim (Option-cases x.cert_id) [
    | inl none_ ↦ ground (arith, none_, h, ids_snoc xs g)
    | inr (id, some_) ↦ absurd (ground (arith, some_, h))
  ]

  -- The history has no certId; the current generation and the record are as before.
  abbrev HistoryDone : Round → Round → Type 0
  HistoryDone s after =
      (history_ids after.ac.status.history ≡ [])
      × (after.ac.status.current ≡ s.ac.status.current)
      × (after.ac.status.pending_upload ≡ s.ac.status.pending_upload)

  abbrev entered :
      List CertificateGeneration
      → CertificateGeneration
      → CertificateGeneration
      → List CertificateGeneration
      → Round
      → Round
  entered done g g' gs s = record (delete_generation env g s).1 {
    ac = with_history (done ++ g' ∷ gs) (delete_generation env g s).1.ac;
  }

  cleanup_history_step :
      (done gs : List CertificateGeneration) (g g' : CertificateGeneration) (s : Round)
      → (delete_generation env g s).0 ≡ ok g'
      → cleanup_history env done (g ∷ gs) s
        ≡ cleanup_history env (done ++ g' ∷ []) gs (entered done g g' gs s)
  unfolding cleanup_history
  cleanup_history_step done gs g g' s e = ground (arith, e)

  cleanup_history_fails :
      (done gs : List CertificateGeneration) (g : CertificateGeneration) (s : Round) (x : Error)
      → (delete_generation env g s).0 ≡ err x
      → is_ok (cleanup_history env done (g ∷ gs) s).0 ≡ false
  unfolding cleanup_history
  cleanup_history_fails done gs g s x e = ground (arith, e)

  cleanup_history-Done :
      (gs done : List CertificateGeneration) (s : Round)
      → s.ac.status.history ≡ done ++ gs
      → history_ids done ≡ []
      → (is_ok (cleanup_history env done gs s).0 ≡ false)
        ⊎ HistoryDone s (cleanup_history env done gs s).1
  unfolding cleanup_history
  cleanup_history-Done [] done s e h = inr (ap history_ids (e ∙ append-nil done) ∙ h, refl, refl)
  cleanup_history-Done (g ∷ gs) done s e h = elim (Res-cases (delete_generation env g s).0) [
    | inr (x, failed) ↦ inl (cleanup_history_fails done gs g s x failed)
    | inl (g', fine) ↦
        let run =
          cleanup_history-Done gs (done ++ g' ∷ []) (entered done g g' gs s)
            (sym (append_assoc done (g' ∷ []) gs))
            (ids_snoc done g' h (delete_generation-id g g' s fine)) in
        ground (arith, run, cleanup_history_step done gs g g' s fine, delete_generation-ac g s)
  ]

  cleanup_current_lem :
      (o : Option CertificateGeneration) (s : Round)
      → s.ac.status.current ≡ o
      → (is_ok (cleanup_current env o s).0 ≡ false)
        ⊎ ((remaining_cert_ids (cleanup_current env o s).1.ac ≡ history_ids s.ac.status.history)
            × ((cleanup_current env o s).1.ac.status.pending_upload ≡ s.ac.status.pending_upload))
  unfolding cleanup_current remaining_cert_ids
  cleanup_current_lem none s e = inr (rw e refl, refl)
  cleanup_current_lem (some g) s e = elim (Res-cases (delete_generation env g s).0) [
    | inr (x, failed) ↦ inl (ground (arith, failed))
    | inl (g', fine) ↦
        ground (arith, fine, delete_generation-ac g s, delete_generation-id g g' s fine)
  ]

  cleanup_pending_lem :
      (o : Option PendingUpload) (s : Round)
      → s.ac.status.pending_upload ≡ o
      → (is_ok (cleanup_pending_upload env o s).0 ≡ false)
        ⊎ ((remaining_cert_ids (cleanup_pending_upload env o s).1.ac ≡ remaining_cert_ids s.ac)
            × ((cleanup_pending_upload env o s).1.ac.status.pending_upload ≡ none))
  unfolding cleanup_pending_upload remaining_cert_ids delete_certificate
  cleanup_pending_lem none s e = inr (refl, e)
  cleanup_pending_lem (some p) s e = ground arith

  -- Nothing is recorded any more.
  abbrev pub Clean : Round → Type 0
  Clean after = (remaining_cert_ids after.ac ≡ []) × (after.ac.status.pending_upload ≡ none)

  -- the three parts after the client is made, one after the other
  abbrev after_history : Round → Round
  after_history s = (cleanup_history env [] s.ac.status.history s).1

  abbrev after_current : Round → Round
  after_current s = (cleanup_current env s.ac.status.current (after_history s)).1

  abbrev with_client : Round → Round
  with_client s = record s { trace = new_cas_client ∷ s.trace }

  abbrev FailsOrClean : Round → Type 0
  FailsOrClean s = (is_ok (cleanup_cas env s).0 ≡ false) ⊎ Clean (cleanup_cas env s).1

  cleanup_cas_runs :
      (s : Round)
      → HistoryDone (with_client s) (after_history (with_client s))
      → (is_ok (cleanup_current env s.ac.status.current (after_history (with_client s))).0 ≡ false)
        ⊎ ((remaining_cert_ids (after_current (with_client s)).ac ≡ [])
            × ((after_current (with_client s)).ac.status.pending_upload
                ≡ s.ac.status.pending_upload))
  cleanup_cas_runs s (ids, current, pending) =
      elim (cleanup_current_lem s.ac.status.current (after_history (with_client s)) current) [
        | inl failed ↦ inl failed
        | inr (same, kept) ↦ inr (same ∙ ids, kept ∙ pending)
      ]

  cleanup_cas_idle :
      (s : Round)
      → (is_nil (remaining_cert_ids s.ac) && not (is_some s.ac.status.pending_upload)) ≡ true
      → FailsOrClean s
  unfolding cleanup_cas
  cleanup_cas_idle s h = inr (ground (arith, h), ground (arith, h))

  -- `cleanupCAS` fails, or no generation of the CR has a certId any more and no write-ahead record
  -- is left.
  pub cleanup_cas-Clean :
      (s : Round) → (is_ok (cleanup_cas env s).0 ≡ false) ⊎ Clean (cleanup_cas env s).1
  unfolding cleanup_cas
  cleanup_cas-Clean s =
      elim (Bool-cases
        (is_nil (remaining_cert_ids s.ac) && not (is_some s.ac.status.pending_upload))) [
          | inl idle ↦ cleanup_cas_idle s idle
          | inr busy ↦
              elim (cleanup_history-Done s.ac.status.history [] (with_client s) refl refl) [
                | inl failed ↦ inl (ground (arith, busy, failed))
                | inr finished ↦ elim (cleanup_cas_runs s finished) [
                  | inl failed ↦ inl (ground (arith, busy, failed))
                  | inr (ids, kept) ↦ ground (
                    arith,
                    busy,
                    cleanup_pending_lem s.ac.status.pending_upload (after_current (with_client s))
                        kept,
                  )
                ]
              ]
        ]
