-- ===== src/Provider/Errors/Mapping.antt =====
-- What the mapping of errors keeps.
use le_to_alicloud.Prelude.{
  ◌≡◌, ◌↔◌, refl, Bool, true, false, none, some, arith, ap, inl, inr, Bool-cases,
}
use le_to_alicloud.Api.Conditions.{Reason}
use le_to_alicloud.Aliyun.Errors.{
  Error, ErrClass, ProviderError, as_cloud, as_provider, class_of, class_or_permanent, wrapped,
}
use le_to_alicloud.Provider.Errors.{
  to_provider_error, swallow_not_found, provider_error_of, throttling,
}

abbrev pub is_retryable : ErrClass → Bool
is_retryable ErrClass.retryable = true
is_retryable _ = false

-- the mapping of an error of a given class
abbrev Mapped : ErrClass → Error → Error → Type 0
Mapped c e e' =
    (p : ProviderError) × (as_provider e' ≡ some p)
    × (p.retryable ≡ is_retryable c)
    × (as_cloud e' ≡ as_cloud e)

provider_error_of-Mapped :
    (c : ErrClass) (e : Error) (reason : Reason)
    → Mapped c e (wrapped (provider_error_of c e reason))
unfolding as_provider as_cloud
provider_error_of-Mapped ErrClass.not_found e reason = (_, refl, refl, refl)
provider_error_of-Mapped ErrClass.auth e reason = (_, refl, refl, refl)
provider_error_of-Mapped ErrClass.permanent e reason = (_, refl, refl, refl)
provider_error_of-Mapped ErrClass.retryable e reason = elim (Bool-cases (throttling (as_cloud e))) [
  | inl slow ↦ rw slow (_, refl, refl, refl)
  | inr other ↦ rw other (_, refl, refl, refl)
]

-- An error that is mapped for a provider has a provider error in its chain, which is marked as
-- retryable exactly when the class of the cloud error is; and the class can still be read off it.
pub to_provider_error-class :
    (e : Error) (reason : Reason)
    → (e' : Error) × (p : ProviderError) × (to_provider_error (some e) reason ≡ some e')
      × (as_provider e' ≡ some p)
      × (p.retryable ≡ is_retryable (class_of e))
      × (class_of e' ≡ class_of e)
unfolding to_provider_error class_of
to_provider_error-class e reason =
    let (p, found, marked, same) = provider_error_of-Mapped (class_of e) e reason in
    (_, p, refl, found, marked, ap class_or_permanent same)

-- A cleanup takes a mapped error for success exactly when the cloud said that the target does not
-- exist.
pub swallow-to_provider_error :
    (e : Error) (reason : Reason)
    → (swallow_not_found (to_provider_error (some e) reason) ≡ none)
      ↔ (class_of e ≡ ErrClass.not_found)
unfolding swallow_not_found to_provider_error as_provider
swallow-to_provider_error e reason = (ground arith, ground arith)
