-- ===== src/Controller/Binding/World/Traces.antt =====
-- What a trace of the binding controller shows, newest first.
use le_to_alicloud.Prelude.{List, [], ◌∷◌, ℤ}
use le_to_alicloud.Api.Binding.{AliyunCertificateBinding}
use le_to_alicloud.Provider.Types.{CertMaterial}
use le_to_alicloud.Provider.Interface.{Target, ApplyOptions}
use le_to_alicloud.Controller.Binding.World.{
  BindingTrace, patch_binding, apply_target, cleanup_target, set_applied_age,
}

-- the writes of a certificate
abbrev pub applies : BindingTrace → List (Target × (CertMaterial × ApplyOptions))
applies [] = []
applies (apply_target tg m opts ∷ t) = (tg, (m, opts)) ∷ applies t
applies (_ ∷ t) = applies t

-- the targets whose certificate was taken away
abbrev pub cleanups : BindingTrace → List Target
cleanups [] = []
cleanups (cleanup_target tg ∷ t) = tg ∷ cleanups t
cleanups (_ ∷ t) = cleanups t

-- the values that the gauge of the age got
abbrev pub ages : BindingTrace → List ℤ
ages [] = []
ages (set_applied_age lag ∷ t) = lag ∷ ages t
ages (_ ∷ t) = ages t

-- the objects whose status was sent
abbrev pub sent : BindingTrace → List AliyunCertificateBinding
sent [] = []
sent (patch_binding base b ∷ t) = b ∷ sent t
sent (_ ∷ t) = sent t
