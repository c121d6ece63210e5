-- ===== src/Controller/Binding/Client.antt =====
-- `providerClient` and `handleFactoryError` of
-- internal/controller/aliyuncertificatebinding_controller.go.
use le_to_alicloud.Prelude.{Option, none, some, codes, err, ℤ}
use le_to_alicloud.Api.Conditions.{Reason}
use le_to_alicloud.Api.Certificate.{AliyunCertificate}
use le_to_alicloud.Aliyun.Errors.{Error, plain, as_credentials}
use le_to_alicloud.Provider.Interface.{Client, Provider}
use le_to_alicloud.Controller.Binding.World.{
  BindingEnv, BindingAct, new_provider, perform, ◌>>◌, set_b,
}
use le_to_alicloud.Controller.Binding.Status.{set_binding_ready_false}
use le_to_alicloud.Controller.Binding.Observe.{credentials_requeue, settle}

abbrev pub factory_reason : Option Reason → Reason
factory_reason none = Reason.apply_failed
factory_reason (some r) = r

module _ {W : Type 0} (env : BindingEnv W) where
  -- `providerClient`
  unfoldable pub provider_client : Option AliyunCertificate → BindingAct W (Provider W × Client W)
  provider_client ac s = elim env.provider_factory [
    | none ↦ (err (plain (codes "no ProviderFactory")), s)
    | some make ↦ perform new_provider (λ t. make t s.b ac) s
  ]

  -- `handleFactoryError`
  unfoldable pub handle_factory_error : Error → BindingAct W ℤ
  handle_factory_error e = do
    set_b (set_binding_ready_false env.meta (factory_reason (as_credentials e)))
    settle env credentials_requeue
