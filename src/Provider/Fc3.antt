-- ===== src/Provider/Fc3.antt =====
-- pkg/provider/fc3: the provider of the custom domains of Function Compute, which hold the PEM text.
pub mod RoundTrip
use le_to_alicloud.Prelude.{
  Bool, true, false, not, ◌&&◌, Option, none, some, List, [], ◌∷◌, Text, codes, text_eq, is_empty,
  trim_space, to_upper, split_comma, any, if◌then◌else◌, Res, ok, err,
}
use le_to_alicloud.Run.{Run, pure, raise, attempt, ◌>>=◌, ◌>>◌}
use le_to_alicloud.Api.Conditions.{Reason}
use le_to_alicloud.Api.Binding.{DeletionPolicy, orphan, unbind, target_type_fc3_custom_domain}
use le_to_alicloud.Aliyun.Errors.{Error, ProviderCode, plain}
use le_to_alicloud.Aliyun.Clients.{CustomDomain, UpdateCustomDomainInput, Fc3Client}
use le_to_alicloud.Pki.Crypto.{Crypto}
use le_to_alicloud.Pki.Bundle.{PkiError, leaf_fingerprint}
use le_to_alicloud.Provider.Types.{CertMaterial, Capabilities}
use le_to_alicloud.Provider.Errors.{
  provider_error, translated, to_provider_error, swallow_not_found,
}
use le_to_alicloud.Provider.Interface.{
  Target, ObservedState, ApplyOptions, Client, fc3_client, Provider,
}

abbrev pub protocol_http : Text
protocol_http = codes "HTTP"

abbrev pub protocol_https : Text
protocol_https = codes "HTTPS"

abbrev pub protocol_both : Text
protocol_both = codes "HTTP,HTTPS"

abbrev with_part : Text → List Text → List Text
with_part part rest = if is_empty part then rest else part ∷ rest

unfoldable pub parts_of : List Text → List Text
parts_of [] = []
parts_of (part ∷ parts) = with_part (to_upper (trim_space part)) (parts_of parts)

-- `splitProtocol`; the set is a list
unfoldable pub split_protocol : Text → List Text
unfolding parts_of
split_protocol p = parts_of (split_comma p)

abbrev pub member : Text → List Text → Bool
member x parts = any (λ part. text_eq part x) parts

-- `protocolHasHTTPS`
unfoldable pub protocol_has_https : Text → Bool
protocol_has_https p = member protocol_https (split_protocol p)

-- `isHTTPSOnly`
unfoldable pub is_https_only : Text → Bool
is_https_only p =
    member protocol_https (split_protocol p) && not (member protocol_http (split_protocol p))

-- `Provider.Capabilities`
abbrev pub fc3_capabilities : Capabilities
fc3_capabilities = record {
  references_cert_by_id = false;
  supports_protocol_switch = true;
  requires_cas_upload = false;
}

abbrev fingerprint_or_none : Res PkiError Text → Text
fingerprint_or_none (ok fp) = fp
fingerprint_or_none (err _) = []

-- the state that `Observe` makes of the domain
pub observed_domain : Crypto → CustomDomain → ObservedState
observed_domain crypto cd = record {
  current_fingerprint =
      if is_empty cd.certificate_pem
      then []
      else fingerprint_or_none (leaf_fingerprint crypto cd.certificate_pem);
  current_cert_ref = [];
  protocol = cd.protocol;
  account_id = cd.account_id;
}

-- the body that `Apply` sends
unfoldable pub apply_input : CustomDomain → CertMaterial → ApplyOptions → UpdateCustomDomainInput
apply_input cd m o = record {
  protocol =
      if o.ensure_https_protocol && not (protocol_has_https cd.protocol)
      then protocol_both
      else cd.protocol;
  cert_config =
      some (record { cert_name = m.cas_name; cert_pem = m.cert_pem; key_pem = m.key_pem });
  clear_cert = false;
  echo = cd.echo;
}

-- the body that `Cleanup` sends
unfoldable pub cleanup_input : CustomDomain → UpdateCustomDomainInput
cleanup_input cd = record {
  protocol = if is_https_only cd.protocol then protocol_http else cd.protocol;
  cert_config = none;
  clear_cert = true;
  echo = cd.echo;
}

module _ {W : Type 0} where
  -- `clientOf`
  unfoldable pub fc3_client_of : Client W → Run Error W (Fc3Client W)
  fc3_client_of (fc3_client cl) = pure cl
  fc3_client_of _ = raise (
      provider_error ProviderCode.invalid_client false Reason.apply_failed
        (plain (codes "not an FC3Client")))

  -- a call whose error gets the provider's shape
  abbrev pub translating : {A : Type 0} → Reason → Run Error W A → Run Error W A
  translating reason m = do
    r ← attempt m
    elim r [ ok a ↦ pure a | err e ↦ raise (translated e reason) ]

  abbrev pub report : Option Error → Run Error W Unit
  report none = pure tt
  report (some e) = raise e

  -- `Observe`
  pub fc3_observe : Crypto → Target → Client W → Run Error W ObservedState
  fc3_observe crypto t c = do
    cl ← fc3_client_of c
    cd ← translating Reason.observe_failed (cl.get_custom_domain t.identifier)
    pure (observed_domain crypto cd)

  -- `Apply`
  unfoldable pub fc3_apply : Target → Client W → CertMaterial → ApplyOptions → Run Error W Unit
  fc3_apply t c m o = do
    cl ← fc3_client_of c
    if is_empty m.cas_name
        then raise (
            provider_error ProviderCode.permanent false Reason.apply_failed
              (plain (codes "no CASName")))
        else (do
          cd ← translating Reason.apply_failed (cl.get_custom_domain t.identifier)
          translating Reason.apply_failed
              (cl.update_custom_domain t.identifier (apply_input cd m o)))

  -- the two calls of `Cleanup`
  unfoldable pub fc3_unbind : Text → Fc3Client W → Run Error W Unit
  fc3_unbind domain cl = do
    got ← attempt (cl.get_custom_domain domain)
    elim got [
      | err e ↦ report (swallow_not_found (to_provider_error (some e) Reason.cleanup_failed))
      | ok cd ↦ do
        sent ← attempt (cl.update_custom_domain domain (cleanup_input cd))
        elim sent [
          | err e ↦ report (swallow_not_found (to_provider_error (some e) Reason.cleanup_failed))
          | ok _ ↦ pure tt
        ]
    ]

  -- `Cleanup`
  unfoldable pub fc3_cleanup : Target → Client W → DeletionPolicy → Run Error W Unit
  fc3_cleanup t c orphan = pure tt
  fc3_cleanup t c unbind = do cl ← fc3_client_of c; fc3_unbind t.identifier cl

  unfoldable pub fc3_provider : Crypto → Provider W
  fc3_provider crypto = record {
    name = target_type_fc3_custom_domain;
    capabilities = fc3_capabilities;
    observe = fc3_observe crypto;
    apply = fc3_apply;
    cleanup = fc3_cleanup;
  }
