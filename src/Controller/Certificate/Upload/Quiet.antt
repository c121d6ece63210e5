-- ===== src/Controller/Certificate/Upload/Quiet.antt =====
-- An upload syncs no Certificate.
use le_to_alicloud.Prelude.{◌≡◌, refl, ℕ, Option, none, some, ◌∷◌, arith}
use le_to_alicloud.Api.Certificate.{PendingUpload}
use le_to_alicloud.Pki.Bundle.{Bundle}
use le_to_alicloud.Controller.World.{Env, Round, read_clock}
use le_to_alicloud.Controller.World.Traces.{syncs}
use le_to_alicloud.Controller.Certificate.Upload.{
  patch_pending_upload, write_ahead, find_by_name, claim, upload_pending, upload_generation,
  refresh_upload_state, ensure_uploaded,
}

module _ (env : Env) where
  write_ahead-syncs : (b : Bundle) (s : Round) → syncs (write_ahead env b s).1.trace ≡ syncs s.trace
  unfolding write_ahead patch_pending_upload
  write_ahead-syncs b s = ground arith

  upload_pending-syncs :
      (b : Bundle) (o : Option PendingUpload) (s : Round)
      → syncs (upload_pending env b o s).1.trace ≡ syncs s.trace
  unfolding upload_pending claim find_by_name
  upload_pending-syncs b none s = refl
  upload_pending-syncs b (some p) s = ground arith

  upload_generation-syncs :
      (b : Bundle) (at : ℕ) (s : Round)
      → syncs (upload_generation env b at s).1.trace ≡ syncs s.trace
  unfolding upload_generation
  upload_generation-syncs b at s = ground (
    arith,
    write_ahead-syncs b s,
    upload_pending-syncs b (write_ahead env b s).1.ac.status.pending_upload (write_ahead env b s).1,
  )

  refresh-syncs : (s : Round) → syncs (refresh_upload_state env s).1.trace ≡ syncs s.trace
  unfolding refresh_upload_state
  refresh-syncs s = ground arith

  pub ensure_uploaded-syncs :
      (b : Bundle) (s : Round) → syncs (ensure_uploaded env b s).1.trace ≡ syncs s.trace
  unfolding ensure_uploaded
  ensure_uploaded-syncs b s =
      let s1 = (refresh_upload_state env s).1 in
      ground (
        arith,
        refresh-syncs s,
        upload_generation-syncs b (env.clock s1.trace)
            (record s1 { trace = read_clock ∷ s1.trace }),
      )
