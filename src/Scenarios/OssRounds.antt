-- ===== src/Scenarios/OssRounds.antt =====
-- The provider of the custom domains of a bucket.
use le_to_alicloud.Prelude.{
  ◌≡◌, refl, false, none, [], ◌∷◌, codes, ok, is_empty, text_eq, lookup, store,
}
use le_to_alicloud.Api.Binding.{OssCustomDomainTarget}
use le_to_alicloud.Aliyun.Fake.Queue.{pop}
use le_to_alicloud.Aliyun.Fake.Oss.{
  FakeOss, cname_record, mutate_record, write, put_cname_cert, fake_oss_client,
}
use le_to_alicloud.Provider.Types.{cas_cert_ref}
use le_to_alicloud.Provider.Interface.{Target, oss_spec, oss_client, ObservedState, Client}
use le_to_alicloud.Provider.Oss.{oss_client_of, oss_spec_of, oss_observe, oss_apply}
use le_to_alicloud.Provider.Oss.RoundTrip.{oss_observe-oss_apply}
use le_to_alicloud.Scenarios.Fakes.{test_material, https_options}

abbrev site : OssCustomDomainTarget
site = record {
  region = codes "cn-hangzhou";
  bucket = codes "assets";
  domain_name = codes "www.example.com";
}

abbrev site_target : Target
site_target = record {
  type = codes "OSSCustomDomain";
  region = codes "cn-hangzhou";
  identifier = codes "www.example.com";
  spec = oss_spec site;
}

-- a bucket with one domain, without a certificate
abbrev test_oss : FakeOss
test_oss = record {
  owner = codes "1234";
  buckets =
      (
        codes "assets",
        (
          codes "www.example.com",
          record { domain = codes "www.example.com"; cert_ref = []; cert_type = [] },
        )
            ∷ [],
      )
      ∷ [];
  list_errs = [];
  put_errs = [];
  always_put_err = none;
  list_calls = [];
  put_calls = [];
}

abbrev oss_test_client : Client FakeOss
oss_test_client = oss_client (fake_oss_client (λ t. t))

abbrev written_oss : FakeOss
written_oss = (oss_apply site_target oss_test_client test_material https_options test_oss).1

written_oss_lem :
    (oss_apply site_target oss_test_client test_material https_options test_oss
      ≡ (ok tt, written_oss))
    × (written_oss.list_errs ≡ [])
unfolding oss_apply oss_client_of oss_spec_of cas_cert_ref put_cname_cert write mutate_record
    cname_record pop lookup store text_eq
written_oss_lem = (refl, refl)

oss_observe-oss_apply_example :
    (obs : ObservedState) × ((oss_observe site_target oss_test_client written_oss).0 ≡ ok obs)
    × (obs.current_cert_ref ≡ cas_cert_ref test_material)
    × (is_empty obs.current_cert_ref ≡ false)
    × (obs.account_id ≡ codes "1234")
oss_observe-oss_apply_example =
    oss_observe-oss_apply (λ t. t) site_target site test_material https_options test_oss written_oss
      refl written_oss_lem.0 written_oss_lem.1
