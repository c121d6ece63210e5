-- ===== src/Scenarios/Data.antt =====
-- The world of the scenarios: condition lists that are prepended to, a cloud and an API server with
-- fixed answers, one CR and its bindings.
use le_to_alicloud.Prelude.{
  List, if◌then◌else◌, ◌≡◌, refl, true, none, some, [], ◌∷◌, codes, ok, err, pos,
}
use le_to_alicloud.Api.Conditions.{
  Meta, Condition, ConditionType, first_of_type, same_type, status_is_true,
}
use le_to_alicloud.Api.Certificate.{AliyunCertificate, CertificateGeneration, PendingUpload}
use le_to_alicloud.Api.Binding.{AliyunCertificateBinding, orphan}
use le_to_alicloud.Aliyun.Errors.{api_not_found}
use le_to_alicloud.Pki.Crypto.{rsa_key}
use le_to_alicloud.Pki.Bundle.{Bundle}
use le_to_alicloud.Controller.World.{Env, Round, result_none, CmCertificate}
use le_to_alicloud.Scenarios.Toy.{toy_certificate, toy_crypto}

pub prepend_find :
    (cs : List Condition) (c : Condition) (t : ConditionType)
    → first_of_type t (c ∷ cs) ≡ (if same_type c.type t then some c else first_of_type t cs)
unfolding first_of_type
prepend_find cs c t = refl

abbrev pub test_meta : Meta
test_meta = record {
  set_status_condition = λ cs c. c ∷ cs;
  find_status_condition = λ cs t. first_of_type t cs;
  is_status_condition_true = λ cs t. status_is_true (first_of_type t cs);
  find_first = λ cs t. refl;
  find_set = λ cs c t. prepend_find cs c t;
  is_true_find = λ cs t. refl;
}

abbrev pub test_bundle : Bundle
test_bundle = record {
  leaf = toy_certificate (codes "der");
  intermediates = [];
  signer = rsa_key (codes "key");
  fingerprint = codes "0123abcdder";
}

abbrev pub old_generation : CertificateGeneration
old_generation = record {
  fingerprint = codes "old";
  cert_id = some 41;
  cas_name = codes "web_old";
  not_before = 0;
  not_after = 900000000000000000;
  uploaded_at = 0;
}

abbrev pub older_generation : CertificateGeneration
older_generation = record old_generation { fingerprint = codes "older"; cert_id = some 40 }

abbrev pub test_pending : PendingUpload
test_pending = record {
  fingerprint = codes "0123abcdder";
  cas_name = codes "web_0123abcd";
  client_token = codes "token";
  started_at = 7;
  domain_hint = [];
}

abbrev pub test_ac : AliyunCertificate
test_ac = record {
  namespace = codes "prod";
  name = codes "web";
  uid = codes "01234567-89ab-cdef-0123-456789abcdef";
  generation = 1;
  deletion_timestamp = none;
  finalizer = true;
  spec = record {
    secret_name = [];
    certificate_template = record {
      issuer_ref = none;
      common_name = codes "www.example.com";
      dns_names = [];
      ip_addresses = [];
      duration = none;
      renew_before = none;
      usages = [];
      private_key_encoding = none;
      secret_labels = none;
    };
    aliyun = record {
      credentials_ref = codes "aliyun";
      region = codes "cn-hangzhou";
      cas_region = [];
      endpoint_override = [];
      resource_group_id = [];
      upload_to_cas = none;
    };
    retention = record { keep_last = pos 1; min_age = none };
  };
  status = record {
    observed_generation = 1;
    effective_issuer_ref = none;
    secret_name = [];
    cert_manager_certificate_name = [];
    issuance = none;
    current = some old_generation;
    history = older_generation ∷ [];
    pending_upload = none;
    cas_probed_at = none;
    cleanup_started_at = none;
    conditions = [];
  };
}

-- the CR as the API server has it after a write-ahead patch
abbrev pub announced_ac : AliyunCertificate
announced_ac = record test_ac {
  status = record test_ac.status { pending_upload = some test_pending };
}

abbrev pub test_binding : AliyunCertificateBinding
test_binding = record {
  namespace = codes "prod";
  name = codes "site";
  uid = codes "u1";
  generation = 3;
  creation_timestamp = 5;
  deletion_timestamp = none;
  finalizer = true;
  spec = record {
    certificate_ref = codes "web";
    target = record {
      type = codes "FC3CustomDomain";
      fc3_custom_domain = none;
      oss_custom_domain = none;
    };
    credentials_ref = none;
    deletion_policy = orphan;
  };
  status = record {
    observed_generation = 3;
    applied_fingerprint = codes "old";
    drifted_fingerprint = [];
    applied_cert_ref = [];
    drifted_cert_ref = [];
    last_applied_time = none;
    last_observed_time = none;
    bound_account_id = [];
    cleanup_started_at = none;
    conditions = [];
  };
}

abbrev pub test_cm : CmCertificate
test_cm = record {
  name = codes "web";
  spec = record {
    secret_name = codes "web-tls";
    issuer_ref = record {
      name = codes "le";
      kind = codes "Issuer";
      group = codes "cert-manager.io";
    };
    common_name = codes "www.example.com";
    dns_names = [];
    ip_addresses = [];
    duration = none;
    renew_before = none;
    usages = [];
    private_key_encoding = codes "PKCS1";
    secret_labels = [];
  };
  deletion_timestamp = none;
  conditions = [];
  revision = none;
  renewal_time = none;
  failed_issuance_attempts = none;
  last_failure_time = none;
}

-- Every call succeeds, an upload gives the certId 42, and the cluster has no Certificate and no
-- Secret of the CR.
abbrev pub test_env : Env
test_env = record {
  meta = test_meta;
  crypto = toy_crypto;
  to_lower = λ t. t;
  issuer_defaults = record { name = codes "le"; kind = codes "ClusterIssuer"; group = [] };
  resync_interval = pos 3600000000000;
  cas_probe_interval = pos 43200000000000;
  issuance_stall_threshold = pos 3600000000000;
  cleanup_grace_period = pos 600000000000;
  cleanup_failure_policy = codes "Block";
  clock = λ t. 100000000000000000;
  on_live_get_ac = λ t. ok announced_ac;
  on_update_ac = λ t ac. ok ac;
  on_patch_ac = λ t base ac. ok ac;
  on_list_bindings = λ t. ok (test_binding ∷ []);
  on_get_cm = λ t name. err api_not_found;
  on_sync_cm = λ t name spec. ok (result_none, test_cm);
  on_delete_cm = λ t name. ok tt;
  on_get_secret = λ t name. err api_not_found;
  on_delete_secret = λ t name. ok tt;
  on_new_cas_client = λ t ac. ok tt;
  on_cas_upload = λ t name cert key token. ok 42;
  on_cas_delete = λ t id token. ok tt;
  on_cas_find = λ t hint. ok [];
}

abbrev pub test_round : Round
test_round = record { ac = test_ac; orig = test_ac; trace = [] }
