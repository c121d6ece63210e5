-- ===== src/Controller/Indexes.antt =====
-- internal/controller/indexes.go: the keys that bindings are listed by.
use le_to_alicloud.Prelude.{List, [], ◌∷◌, Text, is_empty, if◌then◌else◌}
use le_to_alicloud.Api.Binding.{AliyunCertificateBinding, target_key}

-- `bindingCertificateIndex`
unfoldable pub binding_certificate_index : AliyunCertificateBinding → List Text
binding_certificate_index b =
    if is_empty b.spec.certificate_ref then [] else b.spec.certificate_ref ∷ []

-- `bindingTargetIndex`
unfoldable pub binding_target_index : AliyunCertificateBinding → List Text
binding_target_index b = if is_empty (target_key b) then [] else target_key b ∷ []
