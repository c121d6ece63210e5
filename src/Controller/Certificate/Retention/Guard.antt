-- ===== src/Controller/Certificate/Retention/Guard.antt =====
-- The three guards of `reclaimable`.
use le_to_alicloud.Prelude.{
  ◌≡◌, ◌≢◌, ◌↔◌, ℕ, ◌≤◌, true, List, [], ◌∷◌, Text, text_eq_iff, All, ℤ, refl, ◌≤ℤ◌, sub_ℕ, arith,
}
use le_to_alicloud.Api.Certificate.{CertificateGeneration}
use le_to_alicloud.Api.Binding.{AliyunCertificateBinding}
use le_to_alicloud.Controller.Certificate.Retention.{released, reclaimable}

-- The binding has caught up with its spec, and has not applied this certificate.
abbrev pub LetGo : Text → AliyunCertificateBinding → Type 0
LetGo fp b = (b.generation ≤ b.status.observed_generation) × (b.status.applied_fingerprint ≢ fp)

released-LetGo :
    (fp : Text) (bs : List AliyunCertificateBinding) → released fp bs ≡ true → All (LetGo fp) bs
unfolding released
released-LetGo fp [] h = tt
released-LetGo fp (b ∷ bs) h = (
  (ground arith, λ e. ground (arith, text_eq_iff b.status.applied_fingerprint fp)),
  released-LetGo fp bs (ground arith),
)

LetGo-released :
    (fp : Text) (bs : List AliyunCertificateBinding) → All (LetGo fp) bs → released fp bs ≡ true
unfolding released
LetGo-released fp [] h = refl
LetGo-released fp (b ∷ bs) h =
    ground
      (arith, h.0.0, h.0.1, text_eq_iff b.status.applied_fingerprint fp, LetGo-released fp bs h.1)

-- A generation may be reclaimed if and only if it is at least as old as the minimal age, and each
-- of the bindings has caught up with its spec and has applied another certificate.
pub reclaimable_iff :
    (gen : CertificateGeneration) (at : ℕ) (min_age : ℤ) (bindings : List AliyunCertificateBinding)
    → (reclaimable gen at min_age bindings ≡ true)
      ↔ ((min_age ≤ℤ sub_ℕ at gen.uploaded_at) × All (LetGo gen.fingerprint) bindings)
unfolding reclaimable
reclaimable_iff gen at min_age bindings = (
  λ h. (ground arith, released-LetGo gen.fingerprint bindings (ground arith)),
  λ h. ground (arith, h.0, LetGo-released gen.fingerprint bindings h.1),
)
