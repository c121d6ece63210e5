-- ===== src/Aliyun/Credentials/Accepted.antt =====
-- Which credentials are accepted.
use le_to_alicloud.Prelude.{◌≡◌, ◌↔◌, ◌⊎◌, true, false, is_empty, arith, is_ok}
use le_to_alicloud.Aliyun.Credentials.{Credentials, is_oidc, check_credentials, limiter_key}

-- Credentials are accepted exactly if they have all three parts of a role, or both halves of an
-- access key; and then the key that calls are limited by is not empty.
pub check_credentials_iff :
    (c : Credentials)
    → ((is_ok (check_credentials c) ≡ true) ↔ (
        (is_oidc c ≡ true)
        ⊎ ((is_empty c.access_key_id ≡ false) × (is_empty c.access_key_secret ≡ false))))
      × ((is_ok (check_credentials c) ≡ false) ⊎ (is_empty (limiter_key c) ≡ false))
unfolding check_credentials limiter_key
check_credentials_iff c = ground arith
