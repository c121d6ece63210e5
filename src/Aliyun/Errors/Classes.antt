-- ===== src/Aliyun/Errors/Classes.antt =====
-- What the classification promises.
use le_to_alicloud.Prelude.{
  ℕ, ◌≤◌, ◌≡◌, refl, ◌⊎◌, Bool, true, Option, none, some, is_some, arith, Text,
}
use le_to_alicloud.Aliyun.Errors.{
  ErrClass, Error, as_cloud, as_net, class_of, classify_code, classify, classify_new,
}

-- A server that answers 429 or 5xx is tried again, whatever code it sends.
pub classify_code_status :
    (code : Text) (status : ℕ)
    → (status ≡ 429) ⊎ (500 ≤ status)
    → classify_code code status ≡ ErrClass.retryable
unfolding classify_code
classify_code_status code status h = ground arith

as_cloud-classify_new : (op : Text) (e : Error) → is_some (as_cloud (classify_new op e)) ≡ true
unfolding classify_new as_cloud
as_cloud-classify_new op e = ground arith

-- Classifying an error again, for any operation, changes nothing, so its class is final.
pub classify_idem :
    (op op' : Text) (e : Option Error) → classify op' (classify op e) ≡ classify op e
unfolding classify
classify_idem op op' none = refl
classify_idem op op' (some e) = ground (arith, as_cloud-classify_new op e)

-- A failure below HTTP is transient: an error that is not classified yet and has a timeout or
-- another network error in its chain is retryable.
pub classify_net :
    (op : Text) (e : Error) (timeout : Bool)
    → as_cloud e ≡ none
    → as_net e ≡ some timeout
    → (e' : Error) × (classify op (some e) ≡ some e') × (class_of e' ≡ ErrClass.retryable)
unfolding classify classify_new class_of as_cloud
classify_net op e timeout h n = (classify_new op e, ground arith, ground arith)
