-- ===== src/Controller/Binding/Observe/Protocol.antt =====
-- The controller and the FC3 provider read a protocol in the same way.
use le_to_alicloud.Prelude.{
  ◌≡◌, refl, true, false, List, [], ◌∷◌, Text, codes, text_eq, any, trim_space, to_upper,
  equal_fold-to_upper, split_comma, arith,
}
use le_to_alicloud.Provider.Interface.{ObservedState}
use le_to_alicloud.Provider.Fc3.{
  protocol_https, parts_of, split_protocol, member, protocol_has_https,
}
use le_to_alicloud.Controller.Binding.Observe.{is_https, protocol_satisfied}

is_https_upper : (part : Text) → is_https part ≡ text_eq (to_upper (trim_space part)) protocol_https
unfolding to_upper
is_https_upper part = equal_fold-to_upper (trim_space part) (codes "HTTPS")

any-parts_of : (parts : List Text) → any is_https parts ≡ member protocol_https (parts_of parts)
unfolding parts_of text_eq
any-parts_of [] = refl
any-parts_of (part ∷ parts) = ground (arith, is_https_upper part, any-parts_of parts)

-- If HTTPS is asked for, `protocolSatisfied` of the controller, which compares the parts of the
-- protocol up to case, says of an observation what `protocolHasHTTPS` of the FC3 provider, which
-- looks in a set of the parts in upper case, says of its protocol. So the provider changes the
-- protocol exactly where the controller asks it to.
pub protocol_satisfied-protocol_has_https :
    (obs : ObservedState) → protocol_satisfied obs true ≡ protocol_has_https obs.protocol
unfolding protocol_satisfied protocol_has_https split_protocol
protocol_satisfied-protocol_has_https obs = any-parts_of (split_comma obs.protocol)

pub protocol_satisfied_any : (obs : ObservedState) → protocol_satisfied obs false ≡ true
unfolding protocol_satisfied
protocol_satisfied_any obs = refl
