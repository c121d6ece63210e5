-- ===== src/Controller/Certificate/Upload/Retry.antt =====
-- A round of `ensureUploaded` that finds the write-ahead record of an earlier one.
use le_to_alicloud.Prelude.{◌≡◌, ℕ, true, false, some, List, ◌∷◌, Text, arith, text_eq_iff, ok}
use le_to_alicloud.Api.Certificate.{AliyunCertificate, PendingUpload, upload_enabled}
use le_to_alicloud.Pki.Bundle.{Bundle, cert_pem, key_pem}
use le_to_alicloud.Controller.World.{Env, Round, Call, live_get_ac, read_clock, new_cas_client}
use le_to_alicloud.Controller.Certificate.Upload.{
  generation_is, claim, upload_pending, write_ahead, upload_generation, ensure_uploaded,
  refresh_upload_state, adopt_upload_state, push_generation, note_uploaded, new_generation,
}
use le_to_alicloud.Controller.Certificate.Upload.WriteAhead.{
  refreshed, AtMostOne, upload_pending-uploads,
}

module _ (env : Env) (b : Bundle) (fresh : AliyunCertificate) (p : PendingUpload) where
  write_ahead_kept :
      (s : Round)
      → s.ac.status.pending_upload ≡ some p
      → p.fingerprint ≡ b.fingerprint
      → write_ahead env b s ≡ (ok tt, s)
  unfolding write_ahead
  write_ahead_kept s e h = ground (arith, text_eq_iff p.fingerprint b.fingerprint)

  upload_generation_kept :
      (at : ℕ) (s : Round)
      → s.ac.status.pending_upload ≡ some p
      → p.fingerprint ≡ b.fingerprint
      → AtMostOne env b p s.trace (upload_generation env b at s).1.trace
  unfolding upload_generation
  upload_generation_kept at s e h =
      ground (arith, write_ahead_kept s e h, upload_pending-uploads env b p s)

  -- If the CR that the API server answers with has a write-ahead record of this certificate, then a
  -- round uploads nothing, or makes one upload, under the name and the token of that very record.
  pub ensure_uploaded-retry :
      (s : Round)
      → env.on_live_get_ac s.trace ≡ ok fresh
      → fresh.status.pending_upload ≡ some p
      → p.fingerprint ≡ b.fingerprint
      → AtMostOne env b p s.trace (ensure_uploaded env b s).1.trace
  unfolding ensure_uploaded refresh_upload_state adopt_upload_state
  ensure_uploaded-retry s e there h = ground (
    arith,
    upload_generation_kept (env.clock (live_get_ac ∷ s.trace)) (refreshed fresh s) there h,
  )

  -- the trace when the upload of a kept record starts
  abbrev pub at_upload : Round → List Call
  at_upload s = new_cas_client ∷ read_clock ∷ live_get_ac ∷ s.trace

  -- If the CR that the API server answers with has a write-ahead record of this certificate, which is
  -- current neither there nor in memory, if uploading is enabled, and the client's factory, the
  -- encoding of the key and the upload succeed, then the round answers true, with a current
  -- generation of this certificate that has the record's name and the certId of the upload.
  pub ensure_uploaded_succeeds :
      (s : Round) (key : Text) (id : ℕ)
      → env.on_live_get_ac s.trace ≡ ok fresh
      → fresh.status.pending_upload ≡ some p
      → p.fingerprint ≡ b.fingerprint
      → generation_is b.fingerprint s.ac.status.current ≡ false
      → generation_is b.fingerprint fresh.status.current ≡ false
      → upload_enabled s.ac.spec.aliyun ≡ true
      → env.on_new_cas_client (read_clock ∷ live_get_ac ∷ s.trace) (adopt_upload_state fresh s.ac)
        ≡ ok tt
      → key_pem env.crypto b ≡ ok key
      → env.on_cas_upload (at_upload s) p.cas_name (cert_pem env.crypto b) key p.client_token
        ≡ ok id
      → ((ensure_uploaded env b s).0 ≡ ok true)
        × ((ensure_uploaded env b s).1.ac.status.current
            ≡ some (record (new_generation b (env.clock (live_get_ac ∷ s.trace))) {
              cert_id = some id;
              cas_name = p.cas_name;
            }))
  unfolding ensure_uploaded refresh_upload_state adopt_upload_state upload_generation upload_pending
      claim push_generation note_uploaded
  ensure_uploaded_succeeds s key id e there h old older on client keyed uploaded =
      ground (arith, write_ahead_kept (refreshed fresh s) there h)
