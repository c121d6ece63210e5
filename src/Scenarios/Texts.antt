-- ===== src/Scenarios/Texts.antt =====
-- Names, tokens, domain names, issuers and errors at concrete values.
use le_to_alicloud.Prelude.{
  ◌≡◌, ◌↔◌, ◌≤◌, refl, true, some, none, List, [], ◌∷◌, ◌++◌, ◌%◌, ◌^◌, Text, codes, length, All,
}
use le_to_alicloud.Naming.{sanitize, cas_name, upload_token, unix}
use le_to_alicloud.Naming.Shape.{IsWord, cas_name_shape}
use le_to_alicloud.Naming.Tokens.{upload_token-injective}
use le_to_alicloud.Api.Certificate.{IssuerRef}
use le_to_alicloud.Aliyun.Errors.{net_error, classify}
use le_to_alicloud.Aliyun.Errors.Classes.{classify_idem}
use le_to_alicloud.Pki.Sans.{fold, covers, missing}
use le_to_alicloud.Pki.Sans.Spec.{Covered, covers_iff}
use le_to_alicloud.Pki.Sans.Missing.{IsSorted, Uncovered, missing_sound}
use le_to_alicloud.Controller.Issuer.{
  IssuerDefaults, from_default, from_status, normalize_issuer_ref, resolve_issuer_ref,
}
use le_to_alicloud.Controller.Issuer.Pin.{resolve_issuer_ref_pin}

sanitize_mixed :
    sanitize (codes "a-b.example" ++ 0xe4 ∷ 0xb8 ∷ 0xad ∷ b'x' ∷ []) ≡ codes "a_b_example_x"
unfolding sanitize
sanitize_mixed = refl

cas_name_shape_example :
    let n = cas_name (codes "my.site") (codes "0123abcd") in
    (2 ≤ length n) × (length n ≤ 63) × IsWord n
cas_name_shape_example =
    cas_name_shape (codes "my.site") (codes "0123abcd")
      (refl, (refl, (refl, (refl, (refl, (refl, (refl, (refl, tt))))))))

abbrev a_uid : Text
a_uid = codes "01234567-89ab-cdef-0123-456789abcdef"

abbrev a_fingerprint : Text
a_fingerprint = codes "0123456789abcdef0123456789abcdef0123456789abcdef0123456789abcdef"

upload_token-injective_example : unix 5000000000 % 2 ^ 32 ≡ unix 5999999999 % 2 ^ 32
unfolding upload_token
upload_token-injective_example =
    upload_token-injective a_uid a_fingerprint 5000000000 5999999999 refl

abbrev same_case : Text → Text
same_case t = t

covers_iff_example :
    (covers same_case (codes "*.example.com") (codes "www.example.com") ≡ true)
    ↔ Covered (fold same_case (codes "*.example.com")) (fold same_case (codes "www.example.com"))
covers_iff_example = covers_iff same_case (codes "*.example.com") (codes "www.example.com")

abbrev held : List Text
held = codes "www.example.com" ∷ []

abbrev wanted : List Text
wanted = codes "www.example.com" ∷ codes "example.com" ∷ []

missing_sound_example :
    All (Uncovered same_case held wanted) (missing same_case held wanted)
    × IsSorted (missing same_case held wanted)
missing_sound_example = missing_sound same_case held wanted

abbrev le : IssuerRef
le = record { name = codes "le"; kind = codes "Issuer"; group = codes "cert-manager.io" }

abbrev flags : IssuerDefaults
flags = record { name = codes "le"; kind = []; group = [] }

abbrev other_flags : IssuerDefaults
other_flags = record { name = codes "other"; kind = []; group = [] }

resolved_by_default : resolve_issuer_ref none none none flags ≡ some (le, from_default)
unfolding resolve_issuer_ref normalize_issuer_ref
resolved_by_default = refl

resolve_issuer_ref_pin_example :
    resolve_issuer_ref none (some le) none other_flags ≡ some (le, from_status)
resolve_issuer_ref_pin_example =
    resolve_issuer_ref_pin none none none none flags other_flags le from_default refl
      resolved_by_default

classify_idem_example :
    classify (codes "Outer") (classify (codes "Upload") (some (net_error true)))
    ≡ classify (codes "Upload") (some (net_error true))
classify_idem_example = classify_idem (codes "Upload") (codes "Outer") (some (net_error true))
