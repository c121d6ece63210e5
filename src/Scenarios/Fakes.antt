-- ===== src/Scenarios/Fakes.antt =====
-- A binding to a custom domain, its certificate, and the cloud in memory that has the domain.
use le_to_alicloud.Prelude.{none, some, [], ◌∷◌, codes, true, ok, pos, zero}
use le_to_alicloud.Api.Conditions.{Reason, issued, is_true}
use le_to_alicloud.Api.Certificate.{AliyunCertificate}
use le_to_alicloud.Api.Binding.{AliyunCertificateBinding, unbind}
use le_to_alicloud.Aliyun.Clients.{marker}
use le_to_alicloud.Aliyun.Fake.Fc3.{Domain, FakeFc3, fake_fc3_client}
use le_to_alicloud.Provider.Interface.{Target, fc3_spec, fc3_client, ApplyOptions}
use le_to_alicloud.Provider.Types.{CertMaterial}
use le_to_alicloud.Provider.Fc3.{fc3_apply, fc3_provider}
use le_to_alicloud.Controller.Secrets.{Secret}
use le_to_alicloud.Controller.Binding.World.{BindingEnv, BindingRound}
use le_to_alicloud.Scenarios.Data.{test_meta, test_ac, test_binding, old_generation}
use le_to_alicloud.Scenarios.Toy.{toy_crypto, crt, key}

-- the CR after the upload
abbrev pub uploaded_ac : AliyunCertificate
uploaded_ac = record test_ac {
  status = record test_ac.status {
    current = some (record old_generation { fingerprint = codes "0123abcdder"; cert_id = some 42 });
  };
}

abbrev pub fc3_binding : AliyunCertificateBinding
fc3_binding = record test_binding {
  spec = record test_binding.spec {
    target = record test_binding.spec.target {
      fc3_custom_domain = some (record {
        region = codes "cn-hangzhou";
        domain_name = codes "www.example.com";
        ensure_https_protocol = true;
      });
    };
  };
}

-- the CR, issued
abbrev pub issued_ac : AliyunCertificate
issued_ac = record uploaded_ac {
  status = record uploaded_ac.status {
    conditions =
        record {
          type = issued;
          status = is_true;
          reason = Reason.is_ready;
          observed_generation = 1;
        }
        ∷ [];
  };
}

abbrev pub test_target : Target
test_target = record {
  type = codes "FC3CustomDomain";
  region = codes "cn-hangzhou";
  identifier = codes "www.example.com";
  spec = fc3_spec (record {
    region = codes "cn-hangzhou";
    domain_name = codes "www.example.com";
    ensure_https_protocol = true;
  });
}

-- plain HTTP, without a certificate
abbrev pub test_domain : Domain
test_domain = record {
  domain_name = codes "www.example.com";
  protocol = codes "HTTP";
  cert_name = [];
  cert_pem = [];
  key_pem = [];
  echo = marker (codes "routes");
}

abbrev pub test_fc3 : FakeFc3
test_fc3 = record {
  account_id = codes "1234";
  domains = (codes "www.example.com", test_domain) ∷ [];
  get_errs = [];
  update_errs = [];
  always_update_err = none;
  fail_after_commit = none;
  get_calls = [];
  update_calls = [];
}

abbrev pub web_secret : Secret
web_secret = record {
  name = codes "web-tls";
  certificate_name = codes "web";
  tls_crt = crt;
  tls_key = key;
}

-- Every call succeeds, and the binding has no rival.
abbrev pub binding_env : BindingEnv FakeFc3
binding_env = record {
  meta = test_meta;
  crypto = toy_crypto;
  to_lower = λ t. t;
  registry = fc3_provider toy_crypto ∷ [];
  drift_check_interval = pos 3600000000000;
  cleanup_grace_period = pos 600000000000;
  cleanup_failure_policy = codes "Abandon";
  clock = λ t. 100000000000000000;
  on_live_get_binding = λ t. ok fc3_binding;
  on_update_binding = λ t b. ok b;
  on_patch_binding = λ t base b. ok b;
  on_get_certificate = λ t name. ok issued_ac;
  on_list_by_target = λ t target. ok (fc3_binding ∷ []);
  on_get_secret = λ t name. ok web_secret;
  provider_factory = some (λ t b ac. ok (fc3_provider toy_crypto, fc3_client fake_fc3_client));
}

abbrev pub round_of : AliyunCertificateBinding → FakeFc3 → BindingRound FakeFc3
round_of b cloud = record {
  b = b;
  orig = b;
  provider = codes "FC3CustomDomain";
  lag = pos zero;
  trace = [];
  cloud = cloud;
}

-- the binding on its way out, an hour after its cleanup began
abbrev pub leaving_binding : AliyunCertificateBinding
leaving_binding = record fc3_binding {
  deletion_timestamp = some 9;
  spec = record fc3_binding.spec { deletion_policy = unbind };
  status = record fc3_binding.status { cleanup_started_at = some 7 };
}

-- the certificate of `web_secret`
abbrev pub test_material : CertMaterial
test_material = record {
  fingerprint = codes "0123abcdder";
  cert_pem = crt;
  key_pem = key;
  cert_id = some 42;
  cas_name = codes "web_0123abcd";
  not_after = 900000000000;
  dns_names = codes "www.example.com" ∷ [];
  cas_region = codes "cn-hangzhou";
}

abbrev pub https_options : ApplyOptions
https_options = record { ensure_https_protocol = true; previous_fingerprint = codes "old" }

-- the cloud after the FC3 provider wrote the material
abbrev pub written_fc3 : FakeFc3
written_fc3 =
    (fc3_apply test_target (fc3_client fake_fc3_client) test_material https_options test_fc3).1
