-- ===== src/Controller/Binding/Conflict/Order.antt =====
-- `lessBinding` orders the bindings by age and UID.
use le_to_alicloud.Prelude.{
  ◌≡◌, ◌⊎◌, true, false, text_lt_irrefl, text_lt_trans, text_lt-cases, arith,
}
use le_to_alicloud.Api.Binding.{AliyunCertificateBinding}
use le_to_alicloud.Controller.Binding.Conflict.{less_binding}

-- what the order compares is the same
abbrev pub SameKey : AliyunCertificateBinding → AliyunCertificateBinding → Type 0
SameKey a b = (a.creation_timestamp ≡ b.creation_timestamp) × (a.uid ≡ b.uid)

pub less_binding_irrefl : (a : AliyunCertificateBinding) → less_binding a a ≡ false
unfolding less_binding
less_binding_irrefl a = ground (arith, text_lt_irrefl a.uid)

pub less_binding_trans :
    (a b c : AliyunCertificateBinding)
    → less_binding a b ≡ true
    → less_binding b c ≡ true
    → less_binding a c ≡ true
unfolding less_binding
less_binding_trans a b c h k = ground (arith, text_lt_trans a.uid b.uid c.uid)

pub less_binding-cases :
    (a b : AliyunCertificateBinding)
    → (less_binding a b ≡ true) ⊎ (SameKey a b ⊎ (less_binding b a ≡ true))
unfolding less_binding
less_binding-cases a b = ground (arith, text_lt-cases a.uid b.uid)

-- `lessBinding` is a strict total order on the pairs of a creation time and a UID: no binding is
-- less than itself, the order is transitive, and of two bindings one is less unless they agree in
-- both.
pub less_binding_order :
    (a b c : AliyunCertificateBinding)
    → (less_binding a a ≡ false)
      × ((less_binding a b ≡ true) ⊎ (SameKey a b ⊎ (less_binding b a ≡ true)))
      × ((less_binding a b ≡ false) ⊎ ((less_binding b c ≡ false) ⊎ (less_binding a c ≡ true)))
less_binding_order a b c =
    (less_binding_irrefl a, less_binding-cases a b, ground (arith, less_binding_trans a b c))
