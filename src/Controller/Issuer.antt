-- ===== src/Controller/Issuer.antt =====
-- internal/controller/issuer.go.
pub mod Pin
use le_to_alicloud.Prelude.{
  Bool, true, false, not, ◌&&◌, Option, none, some, Text, codes, is_empty, text_eq, if◌then◌else◌,
}
use le_to_alicloud.Api.Certificate.{IssuerRef}

pub record IssuerDefaults : Type 0 where
  pub name : Text
  pub kind : Text
  pub group : Text

pub data IssuerSource : Type 0 where
  from_spec from_status from_existing from_default : IssuerSource

-- `NormalizeIssuerRef`
unfoldable pub normalize_issuer_ref : IssuerRef → IssuerRef
normalize_issuer_ref r = record r {
  kind = if is_empty r.kind then codes "Issuer" else r.kind;
  group = if is_empty r.group then codes "cert-manager.io" else r.group;
}

-- `IssuerRefEqual`
unfoldable pub issuer_ref_equal : IssuerRef → IssuerRef → Bool
unfolding normalize_issuer_ref
issuer_ref_equal a b =
    let a' = normalize_issuer_ref a in
    let b' = normalize_issuer_ref b in
    text_eq a'.name b'.name && text_eq a'.kind b'.kind && text_eq a'.group b'.group

-- `IssuerDefaults.Ref`
pub defaults_ref : IssuerDefaults → Option IssuerRef
unfolding normalize_issuer_ref
defaults_ref d =
    if is_empty d.name
    then none
    else some (normalize_issuer_ref (record { name = d.name; kind = d.kind; group = d.group }))

-- a reference that is given and has a name
abbrev pub named : Option IssuerRef → Option IssuerRef
named none = none
named (some r) = if is_empty r.name then none else some r

-- `ResolveIssuerRef`, on spec.certificateTemplate.issuerRef, status.effectiveIssuerRef and the
-- issuerRef of the existing Certificate; `none` is the result `ok = false`.
unfoldable pub resolve_issuer_ref :
    Option IssuerRef
    → Option IssuerRef
    → Option IssuerRef
    → IssuerDefaults
    → Option (IssuerRef × IssuerSource)
unfolding defaults_ref
resolve_issuer_ref template status existing defaults = elim (named template) [
  | some r ↦ some (normalize_issuer_ref r, from_spec)
  | none ↦ elim (named status) [
    | some r ↦ some (normalize_issuer_ref r, from_status)
    | none ↦ elim (named existing) [
      | some r ↦ some (normalize_issuer_ref r, from_existing)
      | none ↦ elim (defaults_ref defaults) [ some r ↦ some (r, from_default) | none ↦ none ]
    ]
  ]
]
