-- ===== src/Controller/World.antt =====
-- The surroundings of a controller: the API server, the clock, the event recorder and the cloud.
-- They answer as they like; an answer may depend on every call made so far, which the trace holds.
-- `Act` is the monad of the methods.
pub mod Traces
pub use le_to_alicloud.Aliyun.Clients.{CertSummary}
pub use le_to_alicloud.Run.{pure, raise, gets, attempt, ◌>>=◌, ◌>>◌}
use le_to_alicloud.Prelude.{
  ℕ, Bool, true, false, Option, none, some, List, [], ◌∷◌, Text, ℤ, Res, ok, err, if◌then◌else◌,
}
use le_to_alicloud.Run.{Run}
use le_to_alicloud.Api.Conditions.{Meta, Reason}
use le_to_alicloud.Api.Certificate.{AliyunCertificate}
use le_to_alicloud.Api.Binding.{AliyunCertificateBinding}
use le_to_alicloud.Aliyun.Errors.{Error, wrapped, cloud, credentials, from_provider, api_not_found}
use le_to_alicloud.Pki.Crypto.{Crypto}
use le_to_alicloud.Controller.Issuer.{IssuerDefaults}
use le_to_alicloud.Controller.Secrets.{Secret, CertificateSpec}

pub data CmConditionType : Type 0 where
  cm_ready cm_issuing cm_other : CmConditionType

pub record CmCondition : Type 0 where
  pub type : CmConditionType
  pub is_true : Bool
  pub last_transition_time : Option ℕ

-- a cert-manager Certificate
pub record CmCertificate : Type 0 where
  pub name : Text
  pub spec : CertificateSpec
  pub deletion_timestamp : Option ℕ
  pub conditions : List CmCondition
  pub revision : Option ℕ
  pub renewal_time : Option ℕ
  pub failed_issuance_attempts : Option ℕ
  pub last_failure_time : Option ℕ

pub data OperationResult : Type 0 where
  result_none result_created result_updated : OperationResult

-- One call that leaves the program.
pub data Call : Type 0 where
  live_get_ac update_ac list_bindings new_cas_client read_clock : Call
  patch_ac : AliyunCertificate → AliyunCertificate → Call
  get_cm sync_cm delete_cm get_secret delete_secret : Text → Call
  event_normal event_warning : Text → Call
  cas_upload : Text → Text → Text → Text → Call
  cas_delete : ℕ → Text → Call
  cas_find : Text → Call

abbrev pub Trace : Type 0
Trace = List Call

-- The newest call stands first in a trace. `patch_ac` is a status patch, of a base and a target;
-- like `update_ac` it answers with the object that the server then has.
pub record Env : Type 0 where
  pub meta : Meta
  pub crypto : Crypto
  pub to_lower : Text → Text
  pub issuer_defaults : IssuerDefaults
  pub resync_interval : ℤ
  pub cas_probe_interval : ℤ
  pub issuance_stall_threshold : ℤ
  pub cleanup_grace_period : ℤ
  pub cleanup_failure_policy : Text
  pub clock : Trace → ℕ
  pub on_live_get_ac : Trace → Res Error AliyunCertificate
  pub on_update_ac : Trace → AliyunCertificate → Res Error AliyunCertificate
  pub on_patch_ac : Trace → AliyunCertificate → AliyunCertificate → Res Error AliyunCertificate
  pub on_list_bindings : Trace → Res Error (List AliyunCertificateBinding)
  pub on_get_cm : Trace → Text → Res Error CmCertificate
  pub on_sync_cm : Trace → Text → CertificateSpec → Res Error (OperationResult × CmCertificate)
  pub on_delete_cm : Trace → Text → Res Error Unit
  pub on_get_secret : Trace → Text → Res Error Secret
  pub on_delete_secret : Trace → Text → Res Error Unit
  pub on_new_cas_client : Trace → AliyunCertificate → Res Error Unit
  pub on_cas_upload : Trace → Text → Text → Text → Text → Res Error ℕ
  pub on_cas_delete : Trace → ℕ → Text → Res Error Unit
  pub on_cas_find : Trace → Text → Res Error (List CertSummary)

-- What a method works on: the object in memory, the base of its patches, and the calls so far.
pub record Round : Type 0 where
  pub ac : AliyunCertificate
  pub orig : AliyunCertificate
  pub trace : Trace

abbrev pub Act : Type 0 → Type 0
Act A = Run Error Round A

-- a call that can fail
abbrev pub perform : {A : Type 0} → Call → (Trace → Res Error A) → Act A
perform c answer s = (answer s.trace, record s { trace = c ∷ s.trace })

abbrev pub set_ac : (AliyunCertificate → AliyunCertificate) → Act Unit
set_ac f s = (ok tt, record s { ac = f s.ac })

abbrev pub set_orig : (AliyunCertificate → AliyunCertificate) → Act Unit
set_orig f s = (ok tt, record s { orig = f s.orig })

abbrev pub event : Bool → Text → Act Unit
event normal reason s = (
  ok tt,
  record s { trace = (if normal then event_normal reason else event_warning reason) ∷ s.trace },
)

module _ (env : Env) where
  -- `r.now()`
  abbrev pub now : Act ℕ
  now s = (ok (env.clock s.trace), record s { trace = read_clock ∷ s.trace })

  -- `r.patchStatus(ctx, ac, orig)`: the answer is decoded into `ac`
  abbrev pub patch_status : Act Unit
  patch_status s =
      let (r, s') = perform (patch_ac s.orig s.ac) (λ t. env.on_patch_ac t s.orig s.ac) s in
      elim r [ ok ac ↦ (ok tt, record s' { ac = ac }) | err e ↦ (err e, s') ]

  -- `r.casClient(ctx, ac)`
  abbrev pub cas_client : Act Unit
  cas_client s = perform new_cas_client (λ t. env.on_new_cas_client t s.ac) s

-- `apierrors.IsNotFound`
unfoldable pub is_api_not_found : Error → Bool
is_api_not_found (wrapped e) = is_api_not_found e
is_api_not_found (cloud _ e) = is_api_not_found e
is_api_not_found (credentials _ e) = is_api_not_found e
is_api_not_found (from_provider _ e) = is_api_not_found e
is_api_not_found api_not_found = true
is_api_not_found _ = false

-- `err != nil && !apierrors.IsNotFound(err)`
abbrev pub unless_api_not_found : Res Error Unit → Act Unit
unless_api_not_found (ok _) = pure tt
unless_api_not_found (err e) = if is_api_not_found e then pure tt else raise e
