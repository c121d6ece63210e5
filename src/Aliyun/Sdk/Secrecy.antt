-- ===== src/Aliyun/Sdk/Secrecy.antt =====
-- What the translations let through.
use le_to_alicloud.Prelude.{
  ◌≡◌, refl, Option, none, some, Text, ok, is_empty, arith, false, not, ◌&&◌, if◌then◌else◌,
  Bool-cases, Option-cases, inl, inr,
}
use le_to_alicloud.Aliyun.Clients.{SdkCertConfig, SdkUpdateInput}
use le_to_alicloud.Provider.Types.{CertMaterial}
use le_to_alicloud.Provider.Interface.{ApplyOptions}
use le_to_alicloud.Provider.Fc3.{protocol_has_https, protocol_both, apply_input}
use le_to_alicloud.Aliyun.Sdk.{
  SdkCustomDomain, string_value, custom_domain_from_sdk, base_of, update_input_to_sdk,
}

abbrev pub with_key : Option Text → Option SdkCertConfig → Option SdkCertConfig
with_key key none = none
with_key key (some c) = some (record c { private_key = key })

-- The view of a custom domain that leaves the client is the same for every private key in the
-- cloud's answer: nothing that follows, the body of the next update included, depends on that key.
pub custom_domain_from_sdk_secret :
    (d : SdkCustomDomain) (key : Option Text)
    → custom_domain_from_sdk (record d { cert_config = with_key key d.cert_config })
      ≡ custom_domain_from_sdk d
unfolding custom_domain_from_sdk
custom_domain_from_sdk_secret d key = ground arith

abbrev body_after : SdkCustomDomain → CertMaterial → ApplyOptions → SdkUpdateInput
body_after d m o = record {
  protocol =
      if o.ensure_https_protocol && not (protocol_has_https (string_value d.protocol))
      then some protocol_both
      else d.protocol;
  cert_config = some (record {
    cert_name = some m.cas_name;
    certificate = some m.cert_pem;
    private_key = some m.key_pem;
  });
  auth_config = d.auth_config;
  cors_config = d.cors_config;
  route_config = d.route_config;
  tls_config = d.tls_config;
  waf_config = d.waf_config;
}

-- The read-modify-write of `Apply` on the body of the SDK succeeds. It sends the five settings that
-- were read as they were read, the name, the certificate and the key of the material, and the
-- protocol that was read, or "HTTP,HTTPS" if HTTPS was asked for and missing. A protocol that was read
-- is not empty.
pub update_input_to_sdk-apply_input :
    (d : SdkCustomDomain) (m : CertMaterial) (o : ApplyOptions)
    → is_empty (string_value d.protocol) ≡ false
    → (body : SdkUpdateInput) × (update_input_to_sdk (apply_input (custom_domain_from_sdk d) m o)
        ≡ ok body)
      × (body.auth_config ≡ d.auth_config)
      × (body.cors_config ≡ d.cors_config)
      × (body.route_config ≡ d.route_config)
      × (body.tls_config ≡ d.tls_config)
      × (body.waf_config ≡ d.waf_config)
      × (body.cert_config
          ≡ some (record {
            cert_name = some m.cas_name;
            certificate = some m.cert_pem;
            private_key = some m.key_pem;
          }))
      × (body.protocol ≡ (
          if o.ensure_https_protocol && not (protocol_has_https (string_value d.protocol))
          then some protocol_both
          else d.protocol))
unfolding update_input_to_sdk apply_input custom_domain_from_sdk base_of
update_input_to_sdk-apply_input d m o present = (
  body_after d m o,
  elim (Option-cases d.protocol) [
    | inl missing ↦ absurd (ground (arith, missing, present))
    | inr (p, there) ↦
        elim (Bool-cases
          (o.ensure_https_protocol && not (protocol_has_https (string_value d.protocol)))) [
            | inl switches ↦ ground (arith, there, switches)
            | inr keeps ↦ ground (arith, there, keeps, present)
          ]
  ],
  refl,
  refl,
  refl,
  refl,
  refl,
  refl,
  refl,
)
