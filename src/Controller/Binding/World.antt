-- ===== src/Controller/Binding/World.antt =====
-- The surroundings of the binding controller, as in Controller/World: the API server, the clock, the
-- event recorder, the metrics and the providers. Answers may depend on every call made so far, and
-- those of a provider on the state `W` of its cloud.
pub mod Traces
use le_to_alicloud.Prelude.{
  ℕ, Bool, true, false, Option, none, some, List, [], ◌∷◌, Text, text_eq, ℤ, Res, ok, err,
  if◌then◌else◌,
}
use le_to_alicloud.Run.{Run}
use le_to_alicloud.Api.Conditions.{Meta, Reason}
use le_to_alicloud.Api.Certificate.{AliyunCertificate}
use le_to_alicloud.Api.Binding.{AliyunCertificateBinding}
use le_to_alicloud.Aliyun.Errors.{Error, ProviderCode}
use le_to_alicloud.Pki.Crypto.{Crypto}
use le_to_alicloud.Provider.Types.{CertMaterial}
use le_to_alicloud.Provider.Interface.{Target, ApplyOptions, Client, Provider}
use le_to_alicloud.Controller.Secrets.{Secret}
use le_to_alicloud.Controller.World.{is_api_not_found}
pub use le_to_alicloud.Run.{pure, raise, gets, attempt, ◌>>=◌, ◌>>◌}

-- the values of the label `result`
pub data ApplyResult : Type 0 where
  result_success result_throttled result_error : ApplyResult

-- One call that leaves the program. The gauges are those of readiness and conflict, and the age.
pub data BindingCall : Type 0 where
  live_get_binding new_provider read_clock : BindingCall
  update_binding : AliyunCertificateBinding → BindingCall
  patch_binding : AliyunCertificateBinding → AliyunCertificateBinding → BindingCall
  get_certificate list_by_target get_secret : Text → BindingCall
  observe_target : Target → BindingCall
  apply_target : Target → CertMaterial → ApplyOptions → BindingCall
  cleanup_target : Target → BindingCall
  event_normal event_warning : Reason → BindingCall
  set_readiness : Bool → Bool → BindingCall
  set_applied_age : ℤ → BindingCall
  clear_gauges : BindingCall
  count_apply : Text → ApplyResult → BindingCall
  count_drift : Text → BindingCall
  count_abandoned : Text → ProviderCode → BindingCall

abbrev pub BindingTrace : Type 0
BindingTrace = List BindingCall

-- The newest call stands first in a trace. The registry is that of the providers; the factory may be
-- missing, and it reads what it needs itself.
pub record BindingEnv (W : Type 0) : Type 0 where
  pub meta : Meta
  pub crypto : Crypto
  pub to_lower : Text → Text
  pub registry : List (Provider W)
  pub drift_check_interval : ℤ
  pub cleanup_grace_period : ℤ
  pub cleanup_failure_policy : Text
  pub clock : BindingTrace → ℕ
  pub on_live_get_binding : BindingTrace → Res Error AliyunCertificateBinding
  pub on_update_binding :
      BindingTrace → AliyunCertificateBinding → Res Error AliyunCertificateBinding
  pub on_patch_binding :
      BindingTrace
      → AliyunCertificateBinding
      → AliyunCertificateBinding
      → Res Error AliyunCertificateBinding
  pub on_get_certificate : BindingTrace → Text → Res Error AliyunCertificate
  pub on_list_by_target : BindingTrace → Text → Res Error (List AliyunCertificateBinding)
  pub on_get_secret : BindingTrace → Text → Res Error Secret
  pub provider_factory : Option (
      BindingTrace
      → AliyunCertificateBinding
      → Option AliyunCertificate
      → Res Error (Provider W × Client W))

-- `bindingRound`, the calls so far, and the cloud
pub record BindingRound (W : Type 0) : Type 0 where
  pub b : AliyunCertificateBinding
  pub orig : AliyunCertificateBinding
  pub provider : Text
  pub lag : ℤ
  pub trace : BindingTrace
  pub cloud : W

abbrev pub BindingAct : Type 0 → Type 0 → Type 0
BindingAct W A = Run Error (BindingRound W) A

module _ {W : Type 0} where
  abbrev pub called : BindingCall → BindingRound W → BindingRound W
  called c s = record s { trace = c ∷ s.trace }

  -- a call that can fail
  abbrev pub perform : {A : Type 0} → BindingCall → (BindingTrace → Res Error A) → BindingAct W A
  perform c answer s = (answer s.trace, called c s)

  -- a call of a provider
  abbrev pub on_cloud : {A : Type 0} → BindingCall → Run Error W A → BindingAct W A
  on_cloud c m s = let (r, cloud) = m s.cloud in (r, record (called c s) { cloud = cloud })

  -- a call without an answer
  abbrev pub note : BindingCall → BindingAct W Unit
  note c s = (ok tt, called c s)

  abbrev pub set_b : (AliyunCertificateBinding → AliyunCertificateBinding) → BindingAct W Unit
  set_b f s = (ok tt, record s { b = f s.b })

  abbrev pub set_orig : AliyunCertificateBinding → BindingAct W Unit
  set_orig b s = (ok tt, record s { orig = b })

  abbrev pub set_lag : ℤ → BindingAct W Unit
  set_lag lag s = (ok tt, record s { lag = lag })

  module _ (env : BindingEnv W) where
    -- `r.now()`
    abbrev pub now : BindingAct W ℕ
    now s = (ok (env.clock s.trace), called read_clock s)

    -- `patchBindingStatus`; the answer is decoded into `b`
    abbrev pub patch_binding_status : BindingAct W Unit
    patch_binding_status s =
        let (r, s') =
          perform (patch_binding s.orig s.b) (λ t. env.on_patch_binding t s.orig s.b) s in
        elim r [ ok b ↦ (ok tt, record s' { b = b }) | err e ↦ (err e, s') ]

    -- `r.Update(ctx, b)`; the answer is decoded into `b`
    abbrev pub update_b : BindingAct W Unit
    update_b s =
        let (r, s') = perform (update_binding s.b) (λ t. env.on_update_binding t s.b) s in
        elim r [ ok b ↦ (ok tt, record s' { b = b }) | err e ↦ (err e, s') ]

    -- the `Get` of the certificate that the binding names; `none` if there is none
    abbrev pub get_referred : BindingAct W (Option AliyunCertificate)
    get_referred s =
        let name = s.b.spec.certificate_ref in
        elim (env.on_get_certificate s.trace name) [
          | ok ac ↦ (ok (some ac), called (get_certificate name) s)
          | err e ↦
              if is_api_not_found e
              then (ok none, called (get_certificate name) s)
              else (err e, called (get_certificate name) s)
        ]
