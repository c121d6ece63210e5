-- ===== src/Controller/Certificate/Retention.antt =====
-- internal/controller/retention.go. A loop of `reclaimOldGenerations` runs on the excess, which it
-- counts down.
pub mod Guard
pub mod Quiet
pub mod Reclaim
pub mod Removed
use le_to_alicloud.Prelude.{
  ℕ, zero, suc, ◌-◌, ◌+◌, Bool, true, false, not, ◌&&◌, Option, none, some, List, [], ◌∷◌, Text,
  codes, text_eq, if◌then◌else◌, Res, ok, err, length, ltb, ◌==◌, ℤ, ltb_ℤ, sub_ℕ,
}
use le_to_alicloud.Naming.{client_token, delete_token}
use le_to_alicloud.Api.Certificate.{
  AliyunCertificate, CertificateGeneration, upload_enabled, min_age_or_default,
  keep_last_or_default,
}
use le_to_alicloud.Api.Binding.{AliyunCertificateBinding}
use le_to_alicloud.Aliyun.Errors.{Error, ErrClass, class_of}
use le_to_alicloud.Controller.World.{
  Env, Call, list_bindings, cas_delete, Round, Act, pure, raise, gets, attempt, perform, ◌>>=◌,
  ◌>>◌, set_ac, event, now, cas_client,
}

-- the loop of `reclaimable`
pub released : Text → List AliyunCertificateBinding → Bool
released fp [] = true
released fp (b ∷ bs) =
    if ltb b.status.observed_generation b.generation
    then false
    else (if text_eq b.status.applied_fingerprint fp then false else released fp bs)

-- `reclaimable`
pub reclaimable : CertificateGeneration → ℕ → ℤ → List AliyunCertificateBinding → Bool
reclaimable gen at min_age bindings =
    if ltb_ℤ (sub_ℕ at gen.uploaded_at) min_age then false else released gen.fingerprint bindings

-- the loop of `liveBindingsFor`
unfoldable pub referring : Text → List AliyunCertificateBinding → List AliyunCertificateBinding
referring name [] = []
referring name (b ∷ bs) =
    if text_eq b.spec.certificate_ref name then b ∷ referring name bs else referring name bs

abbrev pub is_not_found : ErrClass → Bool
is_not_found ErrClass.not_found = true
is_not_found _ = false

-- `err != nil && aliyun.ClassOf(err) != aliyun.ClassNotFound`
abbrev pub unless_not_found : Res Error Unit → Act Unit
unless_not_found (ok _) = pure tt
unless_not_found (err e) = if is_not_found (class_of e) then pure tt else raise e

abbrev pub with_history : List CertificateGeneration → AliyunCertificate → AliyunCertificate
with_history h ac = record ac { status = record ac.status { history = h } }

abbrev pub snoc_of :
    CertificateGeneration
    → Option (List CertificateGeneration × CertificateGeneration)
    → List CertificateGeneration × CertificateGeneration
snoc_of g none = ([], g)
snoc_of g (some (init, oldest)) = (g ∷ init, oldest)

-- `history[:len(history)-1]` and `history[len(history)-1]`
pub split_oldest :
    List CertificateGeneration → Option (List CertificateGeneration × CertificateGeneration)
split_oldest [] = none
split_oldest (g ∷ gs) = some (snoc_of g (split_oldest gs))

module _ (env : Env) where
  -- `liveBindingsFor`
  unfoldable pub live_bindings_for : Act (List AliyunCertificateBinding)
  live_bindings_for = do
    items ← perform list_bindings env.on_list_bindings
    ac ← gets (λ s. s.ac)
    pure (referring ac.name items)

  -- The deletion of one generation in the cloud; the client is made when it is first needed, and
  -- the answer says that there is one.
  pub reclaim_one : Bool → CertificateGeneration → Act Bool
  reclaim_one have g = elim g.cert_id [
    | none ↦ pure have
    | some id ↦ do
      (if have then pure tt else cas_client env)
      ac ← gets (λ s. s.ac)
      let token = delete_token (client_token ac.uid g.fingerprint)
      r ← attempt (perform (cas_delete id token) (λ t. env.on_cas_delete t id token))
      unless_not_found r
      event true (codes "Reclaimed")
      pure true
  ]

  -- the loop of `reclaimOldGenerations`
  pub reclaim_loop : ℕ → ℕ → ℤ → List AliyunCertificateBinding → Bool → Act Unit
  reclaim_loop zero at min_age bindings have = pure tt
  reclaim_loop (suc excess) at min_age bindings have = do
    history ← gets (λ s. s.ac.status.history)
    elim (split_oldest history) [
      | none ↦ pure tt
      | some (init, oldest) ↦ if not (reclaimable oldest at min_age bindings) then pure tt else do
        have ← reclaim_one have oldest
        set_ac (with_history init)
        reclaim_loop excess at min_age bindings have
    ]

  -- `reclaimOldGenerations`
  unfoldable pub reclaim_old_generations : Act Unit
  reclaim_old_generations = do
    ac ← gets (λ s. s.ac)
    let excess = 1 + length ac.status.history - keep_last_or_default ac.spec.retention
    if not (upload_enabled ac.spec.aliyun)
        then pure tt
        else (if excess == 0 then pure tt else do
          bindings ← live_bindings_for
          at ← now env
          reclaim_loop excess at (min_age_or_default ac.spec.retention) bindings false)
