-- ===== src/Controller/Certificate/Upload/WriteAhead.antt =====
-- The write-ahead record: no upload without a record that the API server holds, and the upload
-- carries the name and the token of that record.
use le_to_alicloud.Prelude.{
  ℕ, ◌≡◌, ◌⊎◌, refl, inl, inr, true, false, some, ◌∷◌, arith, text_eq_iff, ok, err, Option-cases,
  Bool-cases, Res-cases, is_ok, ◌∙◌,
}
use le_to_alicloud.Api.Certificate.{AliyunCertificate, PendingUpload}
use le_to_alicloud.Aliyun.Errors.{Error}
use le_to_alicloud.Pki.Bundle.{Bundle}
use le_to_alicloud.Controller.World.{Env, Round, Trace, read_clock, live_get_ac}
use le_to_alicloud.Controller.World.Traces.{uploads}
use le_to_alicloud.Controller.Certificate.Upload.{
  adopt_upload_state, with_pending, pending_is, generation_is, new_pending, find_by_name, claim,
  upload_pending, write_ahead, upload_generation, ensure_uploaded, refresh_upload_state,
}

-- The API server holds the record `p` when the upload of `b` starts: either the CR that it
-- answered with has it, or it accepted the patch that adds it to that CR's state.
pub data Stored (env : Env) (b : Bundle) (s : Round) (p : PendingUpload) : Type 0 where
  found :
      (fresh : AliyunCertificate)
      → env.on_live_get_ac s.trace ≡ ok fresh
      → fresh.status.pending_upload ≡ some p
      → Stored env b s p
  patched :
      (fresh answer : AliyunCertificate)
      → env.on_live_get_ac s.trace ≡ ok fresh
      → env.on_patch_ac
          (read_clock ∷ read_clock ∷ live_get_ac ∷ s.trace)
          (adopt_upload_state fresh s.ac)
          (with_pending (some p) (adopt_upload_state fresh s.ac))
        ≡ ok answer
      → Stored env b s p

-- what the CR in memory is when the upload starts
abbrev pub refreshed : AliyunCertificate → Round → Round
refreshed fresh s = record {
  ac = adopt_upload_state fresh s.ac;
  orig = adopt_upload_state fresh s.orig;
  trace = read_clock ∷ live_get_ac ∷ s.trace;
}

module _ (env : Env) (b : Bundle) where
  -- the uploads of a trace are those of another, and perhaps one with the record's name and token
  abbrev pub AtMostOne : PendingUpload → Trace → Trace → Type 0
  AtMostOne p before after =
      (uploads after ≡ uploads before)
      ⊎ (uploads after ≡ (p.cas_name, p.client_token) ∷ uploads before)

  pub upload_pending-uploads :
      (p : PendingUpload) (s : Round)
      → AtMostOne p s.trace (upload_pending env b (some p) s).1.trace
  unfolding upload_pending claim find_by_name
  upload_pending-uploads p s = ground arith

  fingerprint-new_pending :
      (t : ℕ) (ac : AliyunCertificate) → (new_pending b t ac).fingerprint ≡ b.fingerprint
  unfolding new_pending
  fingerprint-new_pending t ac = refl

  -- The record is in memory, or a patch stores it.
  abbrev Recorded : Round → PendingUpload → Type 0
  Recorded s p =
      (s.ac.status.pending_upload ≡ some p)
      ⊎ ((answer : AliyunCertificate) × (env.on_patch_ac (read_clock ∷ s.trace) s.ac
              (with_pending (some p) s.ac)
            ≡ ok answer))

  abbrev Announced : Round → Trace → Type 0
  Announced s after =
      (uploads after ≡ uploads s.trace)
      ⊎ ((p : PendingUpload) × Recorded s p
          × (p.fingerprint ≡ b.fingerprint)
          × (uploads after ≡ (p.cas_name, p.client_token) ∷ uploads s.trace))

  write_ahead-uploads : (s : Round) → uploads (write_ahead env b s).1.trace ≡ uploads s.trace
  unfolding write_ahead
  write_ahead-uploads s = ground arith

  -- The write-ahead step fails, or leaves a record of this certificate in memory that the server
  -- has too.
  write_ahead-Recorded :
      (s : Round)
      → (is_ok (write_ahead env b s).0 ≡ false)
        ⊎ ((p : PendingUpload) × Recorded s p
            × (p.fingerprint ≡ b.fingerprint)
            × ((write_ahead env b s).1.ac.status.pending_upload ≡ some p))
  unfolding write_ahead
  write_ahead-Recorded s = elim (Bool-cases (pending_is b.fingerprint s.ac.status.pending_upload)) [
    | inl there ↦ elim (Option-cases s.ac.status.pending_upload) [
      | inl nothing ↦ absurd (ground arith)
      | inr (p, e) ↦
          inr (p, inl e, ground (arith, text_eq_iff p.fingerprint b.fingerprint), ground arith)
    ]
    | inr missing ↦
        let p = new_pending b (env.clock s.trace) s.ac in
        elim (Res-cases
          (env.on_patch_ac (read_clock ∷ s.trace) s.ac (with_pending (some p) s.ac))) [
            | inr (x, e) ↦ inl (ground arith)
            | inl (answer, e) ↦ inr (p, inr (answer, e), fingerprint-new_pending _ _, ground arith)
          ]
  ]

  upload_generation-Announced :
      (at : ℕ) (s : Round) → Announced s (upload_generation env b at s).1.trace
  unfolding upload_generation
  upload_generation-Announced at s = elim (write_ahead-Recorded s) [
    | inl failed ↦ inl (ground (arith, write_ahead-uploads s))
    | inr (p, recorded, fp, e) ↦ elim (upload_pending-uploads p (write_ahead env b s).1) [
      | inl same ↦ inl (ground (arith, write_ahead-uploads s))
      | inr one ↦ elim (Bool-cases (is_ok (write_ahead env b s).0)) [
        | inr failed ↦ inl (ground (arith, write_ahead-uploads s))
        | inl fine ↦ inr (p, recorded, fp, ground (arith, write_ahead-uploads s))
      ]
    ]
  ]

  ensure_uploaded_skips :
      (s : Round)
      → generation_is b.fingerprint s.ac.status.current ≡ true
      → uploads (ensure_uploaded env b s).1.trace ≡ uploads s.trace
  unfolding ensure_uploaded
  ensure_uploaded_skips s there = ground arith

  ensure_uploaded_stale :
      (s : Round) (x : Error)
      → env.on_live_get_ac s.trace ≡ err x
      → uploads (ensure_uploaded env b s).1.trace ≡ uploads s.trace
  unfolding ensure_uploaded refresh_upload_state
  ensure_uploaded_stale s x e = ground arith

  Recorded-Stored :
      (fresh : AliyunCertificate) (s : Round) (p : PendingUpload)
      → env.on_live_get_ac s.trace ≡ ok fresh
      → Recorded (refreshed fresh s) p
      → Stored env b s p
  unfolding adopt_upload_state
  Recorded-Stored fresh s p e (inl there) = found fresh e there
  Recorded-Stored fresh s p e (inr (answer, there)) = patched fresh answer e there

  ensure_uploaded_runs :
      (fresh : AliyunCertificate) (s : Round)
      → generation_is b.fingerprint s.ac.status.current ≡ false
      → env.on_live_get_ac s.trace ≡ ok fresh
      → (uploads (ensure_uploaded env b s).1.trace ≡ uploads s.trace)
        ⊎ (uploads (ensure_uploaded env b s).1.trace
            ≡ uploads
                (upload_generation env b
                  (env.clock (live_get_ac ∷ s.trace))
                  (refreshed fresh s)).1.trace)
  unfolding ensure_uploaded refresh_upload_state
  ensure_uploaded_runs fresh s old e = ground arith

  -- A round of `ensureUploaded`, whatever fails in it, uploads nothing, or makes one upload of this
  -- certificate with the name and the token of a write-ahead record that the API server has.
  pub ensure_uploaded-uploads :
      (s : Round)
      → (uploads (ensure_uploaded env b s).1.trace ≡ uploads s.trace)
        ⊎ ((p : PendingUpload) × Stored env b s p
            × (p.fingerprint ≡ b.fingerprint)
            × (uploads (ensure_uploaded env b s).1.trace
                ≡ (p.cas_name, p.client_token) ∷ uploads s.trace))
  ensure_uploaded-uploads s = elim (Bool-cases (generation_is b.fingerprint s.ac.status.current)) [
    | inl there ↦ inl (ensure_uploaded_skips s there)
    | inr old ↦ elim (Res-cases (env.on_live_get_ac s.trace)) [
      | inr (x, e) ↦ inl (ensure_uploaded_stale s x e)
      | inl (fresh, e) ↦ elim (ensure_uploaded_runs fresh s old e) [
        | inl same ↦ inl same
        | inr runs ↦ elim (upload_generation-Announced _ (refreshed fresh s)) [
          | inl same ↦ inl (runs ∙ same)
          | inr (p, recorded, fp, one) ↦
              inr (p, Recorded-Stored fresh s p e recorded, fp, runs ∙ one)
        ]
      ]
    ]
  ]
