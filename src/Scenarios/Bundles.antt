-- ===== src/Scenarios/Bundles.antt =====
-- A bundle in the toy encoding, read and written.
use le_to_alicloud.Prelude.{◌≡◌, refl, ok, codes, arith, text_eq, contains, has_prefix}
use le_to_alicloud.Pki.Bundle.{parse_bundle, parse_loop, cert_pem, key_pem, leaf_fingerprint}
use le_to_alicloud.Pki.Bundle.Loop.{parse_loop_fuel}
use le_to_alicloud.Pki.Bundle.RoundTrip.{parse_bundle_normal, leaf_fingerprint-cert_pem}
use le_to_alicloud.Scenarios.Data.{test_bundle}
use le_to_alicloud.Scenarios.Toy.{toy_crypto, crt, key}

parse_bundle_toy : parse_bundle toy_crypto crt key ≡ ok test_bundle
unfolding parse_bundle text_eq contains has_prefix
parse_bundle_toy = refl

parse_bundle_normal_example :
    parse_bundle toy_crypto (cert_pem toy_crypto test_bundle) key ≡ ok test_bundle
unfolding key_pem
parse_bundle_normal_example =
    parse_bundle_normal toy_crypto crt key key test_bundle parse_bundle_toy refl

leaf_fingerprint-cert_pem_example :
    leaf_fingerprint toy_crypto (cert_pem toy_crypto test_bundle) ≡ ok (codes "0123abcdder")
leaf_fingerprint-cert_pem_example =
    leaf_fingerprint-cert_pem toy_crypto crt key test_bundle parse_bundle_toy

parse_loop_fuel_example : parse_loop toy_crypto 17 crt ≡ parse_loop toy_crypto 99 crt
parse_loop_fuel_example = parse_loop_fuel toy_crypto 17 99 crt (omega arith) (omega arith)
