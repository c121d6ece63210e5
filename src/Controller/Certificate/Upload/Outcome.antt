-- ===== src/Controller/Certificate/Upload/Outcome.antt =====
-- What `ensureUploaded` leaves in the status: the current generation, the history and the record.
use le_to_alicloud.Prelude.{
  ◌≡◌, ◌⊎◌, refl, inl, inr, ℕ, Bool, true, false, Option, none, some, ◌∷◌, arith, text_eq_refl, Res,
  ok, err, is_some, Bool-cases, Res-cases,
}
use le_to_alicloud.Api.Certificate.{
  AliyunCertificate, CertificateGeneration, PendingUpload, upload_enabled,
}
use le_to_alicloud.Aliyun.Errors.{Error}
use le_to_alicloud.Pki.Bundle.{Bundle}
use le_to_alicloud.Controller.World.{Env, Round, live_get_ac}
use le_to_alicloud.Controller.Certificate.Upload.{
  generation_is, archive, adopt_upload_state, find_by_name, claim, upload_pending, write_ahead,
  patch_pending_upload, upload_generation, ensure_uploaded, refresh_upload_state, note_uploaded,
  push_generation,
}
use le_to_alicloud.Controller.Certificate.Upload.WriteAhead.{refreshed}

abbrev pub has_cert_id : Option CertificateGeneration → Bool
has_cert_id none = false
has_cert_id (some g) = is_some g.cert_id

module _ (env : Env) (b : Bundle) where
  -- The generations of two CRs are the same.
  abbrev pub SameGenerations : AliyunCertificate → AliyunCertificate → Type 0
  SameGenerations x y =
      (x.status.current ≡ y.status.current) × (x.status.history ≡ y.status.history)

  write_ahead-same :
      (s : Round)
      → SameGenerations (write_ahead env b s).1.ac s.ac
        × ((write_ahead env b s).1.ac.spec ≡ s.ac.spec)
  unfolding write_ahead patch_pending_upload
  write_ahead-same s = ground arith

  upload_pending-ac :
      (o : Option PendingUpload) (s : Round) → (upload_pending env b o s).1.ac ≡ s.ac
  unfolding upload_pending claim find_by_name
  upload_pending-ac none s = refl
  upload_pending-ac (some p) s = ground arith

  -- The uploading branch leaves the generations alone; a success returns a generation of this
  -- certificate with its certId, and removes the record.
  abbrev Generated : Round → Res Error CertificateGeneration → Type 0
  Generated after (err _) = Unit
  Generated after (ok gen) =
      (gen.fingerprint ≡ b.fingerprint)
      × (is_some gen.cert_id ≡ true)
      × (after.ac.status.pending_upload ≡ none)

  upload_generation_lem :
      (at : ℕ) (s : Round)
      → SameGenerations (upload_generation env b at s).1.ac s.ac
        × Generated (upload_generation env b at s).1 (upload_generation env b at s).0
  unfolding upload_generation note_uploaded
  upload_generation_lem at s = ground (
    arith,
    write_ahead-same s,
    upload_pending-ac (write_ahead env b s).1.ac.status.pending_upload (write_ahead env b s).1,
  )

  -- what the CR that the API server answered with becomes
  abbrev pub Advanced : AliyunCertificate → Round → Round → Type 0
  Advanced fresh before after =
      (generation_is b.fingerprint after.ac.status.current ≡ true)
      × (after.ac.status.history ≡ archive fresh.status.current fresh.status.history)
      × ((upload_enabled before.ac.spec.aliyun ≡ false)
          ⊎ ((after.ac.status.pending_upload ≡ none)
              × (has_cert_id after.ac.status.current ≡ true)))

  abbrev pub Outcome : Round → Res Error Bool → Round → Type 0
  Outcome before (ok true) after =
      (fresh : AliyunCertificate) × (env.on_live_get_ac before.trace ≡ ok fresh)
      × (generation_is b.fingerprint fresh.status.current ≡ false)
      × Advanced fresh before after
  Outcome before (ok false) after = generation_is b.fingerprint after.ac.status.current ≡ true
  Outcome before (err e) after =
      SameGenerations after.ac before.ac
      ⊎ ((fresh : AliyunCertificate) × (env.on_live_get_ac before.trace ≡ ok fresh)
          × SameGenerations after.ac fresh)

  -- the round from the read of the live CR on
  abbrev Read : AliyunCertificate → Round → Res Error Bool → Round → Type 0
  Read fresh before (ok true) after =
      (generation_is b.fingerprint fresh.status.current ≡ false) × Advanced fresh before after
  Read fresh before (ok false) after = generation_is b.fingerprint after.ac.status.current ≡ true
  Read fresh before (err e) after = SameGenerations after.ac fresh

  ensure_uploaded-Read :
      (fresh : AliyunCertificate) (s : Round)
      → generation_is b.fingerprint s.ac.status.current ≡ false
      → env.on_live_get_ac s.trace ≡ ok fresh
      → Read fresh s (ensure_uploaded env b s).0 (ensure_uploaded env b s).1
  unfolding ensure_uploaded refresh_upload_state adopt_upload_state push_generation
  ensure_uploaded-Read fresh s old e = ground (
    arith,
    text_eq_refl b.fingerprint,
    upload_generation_lem (env.clock (live_get_ac ∷ s.trace)) (refreshed fresh s),
  )

  to_outcome :
      (fresh : AliyunCertificate) (s after : Round) (r : Res Error Bool)
      → env.on_live_get_ac s.trace ≡ ok fresh
      → Read fresh s r after
      → Outcome s r after
  to_outcome fresh s after (ok true) e h = (fresh, e, h.0, h.1)
  to_outcome fresh s after (ok false) e h = h
  to_outcome fresh s after (err x) e h = inr (fresh, e, h)

  ensure_uploaded-there :
      (s : Round)
      → generation_is b.fingerprint s.ac.status.current ≡ true
      → Outcome s (ensure_uploaded env b s).0 (ensure_uploaded env b s).1
  unfolding ensure_uploaded
  ensure_uploaded-there s there = ground arith

  ensure_uploaded-unread :
      (x : Error) (s : Round)
      → generation_is b.fingerprint s.ac.status.current ≡ false
      → env.on_live_get_ac s.trace ≡ err x
      → Outcome s (ensure_uploaded env b s).0 (ensure_uploaded env b s).1
  unfolding ensure_uploaded refresh_upload_state
  ensure_uploaded-unread x s old e = ground arith

  -- `ensureUploaded` answers true when it made this certificate the current one of the CR that the
  -- API server answered with, whose old current generation it moved to the history unless that has no
  -- fingerprint; if uploading is enabled the current one then has a certId and no write-ahead record is left. It answers false
  -- when this certificate is current already. On an error neither the current generation nor the
  -- history advanced: they are those of before, or those of the CR that the API server answered with.
  pub ensure_uploaded-Outcome :
      (s : Round) → Outcome s (ensure_uploaded env b s).0 (ensure_uploaded env b s).1
  ensure_uploaded-Outcome s = elim (Bool-cases (generation_is b.fingerprint s.ac.status.current)) [
    | inl there ↦ ensure_uploaded-there s there
    | inr old ↦ elim (Res-cases (env.on_live_get_ac s.trace)) [
      | inr (x, e) ↦ ensure_uploaded-unread x s old e
      | inl (fresh, e) ↦ to_outcome fresh s _ _ e (ensure_uploaded-Read fresh s old e)
    ]
  ]
