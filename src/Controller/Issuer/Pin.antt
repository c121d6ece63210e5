-- ===== src/Controller/Issuer/Pin.antt =====
-- Once an issuer was resolved and written to the status, it stays.
use le_to_alicloud.Prelude.{◌≡◌, false, Option, none, some, arith, is_empty}
use le_to_alicloud.Api.Certificate.{IssuerRef}
use le_to_alicloud.Controller.Issuer.{
  IssuerDefaults, IssuerSource, from_status, normalize_issuer_ref, named, resolve_issuer_ref,
}

normalize_idem :
    (r : IssuerRef) → normalize_issuer_ref (normalize_issuer_ref r) ≡ normalize_issuer_ref r
unfolding normalize_issuer_ref
normalize_idem r = ground arith

-- Every issuer that is resolved has a name and is normalised already.
pub resolve_issuer_ref_normal :
    (template status existing : Option IssuerRef) (d : IssuerDefaults) (r : IssuerRef)
    (source : IssuerSource)
    → resolve_issuer_ref template status existing d ≡ some (r, source)
    → (normalize_issuer_ref r ≡ r) × (is_empty r.name ≡ false)
unfolding resolve_issuer_ref normalize_issuer_ref
resolve_issuer_ref_normal template status existing d r source h = ground arith

-- The pin: with no issuerRef in the spec, the issuer that a round resolved and wrote to
-- status.effectiveIssuerRef is what every later round resolves, from the status, whatever the
-- operator's default flags and the existing Certificate have become.
pub resolve_issuer_ref_pin :
    (template status existing existing' : Option IssuerRef) (d d' : IssuerDefaults) (r : IssuerRef)
    (source : IssuerSource)
    → named template ≡ none
    → resolve_issuer_ref template status existing d ≡ some (r, source)
    → resolve_issuer_ref template (some r) existing' d' ≡ some (r, from_status)
unfolding resolve_issuer_ref
resolve_issuer_ref_pin template status existing existing' d d' r source t h =
    ground (arith, resolve_issuer_ref_normal template status existing d r source h)
