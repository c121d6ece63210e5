-- ===== src/Controller/Certificate/Reconcile/Guard.antt =====
-- The guard on the name of the Secret: a Certificate is not pointed at a Secret of another owner.
use le_to_alicloud.Prelude.{
  ◌≡◌, true, false, Option, none, some, ◌∷◌, arith, ok, Res-cases, Bool-cases, inl, inr,
}
use le_to_alicloud.Api.Certificate.{IssuerRef}
use le_to_alicloud.Controller.Secrets.{Secret, secret_name_for, secret_owned_by_us}
use le_to_alicloud.Controller.World.{Env, Round, CmCertificate, get_secret}
use le_to_alicloud.Controller.World.Traces.{syncs}
use le_to_alicloud.Controller.Certificate.Status.{mirror_issuance, cert_ready}
use le_to_alicloud.Controller.Certificate.Reconcile.{renames_secret, serving}
use le_to_alicloud.Controller.Certificate.Reconcile.Quiet.{
  reconcile_issued-syncs, note_stall-syncs, wait-syncs,
}
use le_to_alicloud.Controller.Certificate.Reconcile.Steps.{
  secret_name_conflict, note_stall, synced, guarded,
}

module _ (env : Env) where
  synced-syncs :
      (cert : CmCertificate) (s : Round) → syncs (synced env cert s).1.trace ≡ syncs s.trace
  unfolding synced
  synced-syncs cert s =
      let s1 = record s { ac = mirror_issuance cert (serving cert s.ac) } in
      let s2 = (note_stall env cert s1).1 in
      elim (Res-cases (note_stall env cert s1).0) [
        | inr (e, failed) ↦ ground (arith, failed, note_stall-syncs env cert s1)
        | inl (stalled, fine) ↦ elim (Bool-cases (cert_ready cert)) [
          | inl is_ready ↦ ground (
            arith,
            fine,
            is_ready,
            note_stall-syncs env cert s1,
            reconcile_issued-syncs env cert stalled s2,
          )
          | inr waits ↦
              ground (arith, fine, waits, note_stall-syncs env cert s1, wait-syncs env stalled s2)
        ]
      ]

  -- If the Secret that the CR asks for belongs to another Certificate, and the CR's Certificate does
  -- not exist or names another Secret, then the guard of a round and all the steps after it do not
  -- sync the Certificate.
  pub guarded-syncs :
      (existing : Option CmCertificate) (issuer : IssuerRef) (s : Round) (other : Secret)
      → renames_secret existing s.ac ≡ true
      → env.on_get_secret s.trace (secret_name_for s.ac) ≡ ok other
      → secret_owned_by_us other s.ac ≡ false
      → syncs (guarded env existing issuer s).1.trace ≡ syncs s.trace
  unfolding guarded secret_name_conflict
  guarded-syncs none issuer s other renames found foreign = ground (arith, renames, found, foreign)
  guarded-syncs (some cert) issuer s other renames found foreign = ground (
    arith,
    renames,
    found,
    foreign,
    synced-syncs cert (record s { trace = get_secret (secret_name_for s.ac) ∷ s.trace }),
  )
