-- ===== src/Provider/Types.antt =====
-- pkg/provider/provider.go.
use le_to_alicloud.Prelude.{
  ℕ, zero, suc, ◌+◌, ◌/◌, ◌%◌, Bool, Option, none, some, List, [], ◌∷◌, ◌++◌, Text, codes, is_empty,
  ltb, if◌then◌else◌,
}

-- `strconv.FormatInt(n, 10)` of a number that is not negative; each step divides by ten.
pub decimal : ℕ → ℕ → Text
decimal zero n = []
decimal (suc fuel) n =
    let front = decimal fuel (n / 10) in
    if ltb n 10 then (b'0' + n) ∷ [] else front ++ (b'0' + n % 10) ∷ []

pub record CertMaterial : Type 0 where
  pub fingerprint : Text
  pub cert_pem : Text
  pub key_pem : Text
  pub cert_id : Option ℕ
  pub cas_name : Text
  pub not_after : ℕ
  pub dns_names : List Text
  pub cas_region : Text

-- `CASCertRef`
unfoldable pub cas_cert_ref : CertMaterial → Text
unfolding decimal
cas_cert_ref m = elim m.cert_id [
  | none ↦ []
  | some id ↦
      if is_empty m.cas_region then [] else decimal (suc id) id ++ (codes "-" ++ m.cas_region)
]

pub record Capabilities : Type 0 where
  pub references_cert_by_id : Bool
  pub supports_protocol_switch : Bool
  pub requires_cas_upload : Bool
