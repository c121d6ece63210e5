-- ===== src/Scenarios/Clouds.antt =====
-- The clients of the cloud on small answers.
use le_to_alicloud.Prelude.{
  ◌≡◌, ◌⊎◌, ◌<◌, ◌≤◌, refl, ap, arith, ◌+◌, ℕ, Option, none, some, [], ◌∷◌, map, take, drop, ◌*◌,
  ◌-◌, codes, length, ok, err, if◌then◌else◌, not,
}
use le_to_alicloud.Run.{Run}
use le_to_alicloud.Aliyun.Errors.{Error}
use le_to_alicloud.Aliyun.Clients.{SdkUpdateInput}
use le_to_alicloud.Aliyun.Cache.{ClientKey}
use le_to_alicloud.Aliyun.Cache.Refines.{serve, serve_refines}
use le_to_alicloud.Aliyun.Listing.{summaries, too_many_pages, find_uploaded}
use le_to_alicloud.Aliyun.Listing.Pages.{Orders, find_uploaded_lem}
use le_to_alicloud.Aliyun.Sdk.{SdkCustomDomain, custom_domain_from_sdk, update_input_to_sdk}
use le_to_alicloud.Aliyun.Sdk.Secrecy.{
  with_key, custom_domain_from_sdk_secret, update_input_to_sdk-apply_input,
}
use le_to_alicloud.Provider.Fc3.{protocol_both, protocol_has_https, apply_input}
use le_to_alicloud.Scenarios.Toy.{crt, key}
use le_to_alicloud.Scenarios.Fakes.{test_material, https_options}

abbrev key_1 : ClientKey
key_1 = record {
  namespace = codes "prod";
  name = codes "aliyun";
  resource_version = codes "1";
  region = codes "cn-hangzhou";
  endpoint = [];
  resource_group_id = [];
  type = codes "cas";
}

abbrev key_2 : ClientKey
key_2 = record key_1 { resource_version = codes "2" }

-- A client of the first version, two requests for it, and one for the second version.
serve_refines_example :
    serve (λ k. ok (k.resource_version)) (key_1 ∷ key_1 ∷ key_2 ∷ []) []
    ≡ map (λ k. ok (k.resource_version)) (key_1 ∷ key_1 ∷ key_2 ∷ [])
serve_refines_example =
    serve_refines (λ k. ok (k.resource_version)) (key_1 ∷ key_1 ∷ key_2 ∷ [])
      (
        (refl, refl, refl, refl, refl),
        ((refl, refl, refl, refl, refl), ((refl, refl, refl, refl, refl), tt)),
      )

abbrev test_orders : Orders
test_orders =
    some (record { certificate_id = some 42; name = some (codes "web_0123abcd") })
    ∷ some (record { certificate_id = none; name = some (codes "ordered") })
    ∷ none
    ∷ []

-- the pages of a list, fifty entries each
abbrev paged : Orders → ℕ → Run Error Unit (Option Orders)
paged all page w = (ok (some (take 50 (drop (50 * (page - 1)) all))), w)

paged-Served :
    (all : Orders) (q : ℕ) (w : Unit)
    → (paged all (1 + q) w).0 ≡ ok (some (take 50 (drop (50 * q) all)))
paged-Served all q w =
    let e : 1 + q - 1 ≡ q = omega arith in ap (λ (n : ℕ). ok (some (take 50 (drop (50 * n) all)))) e

find_uploaded_example :
    (length test_orders < 10000)
      × ((find_uploaded (paged test_orders) tt).0 ≡ ok (summaries test_orders))
    ⊎ ((10000 ≤ length test_orders)
        × ((find_uploaded (paged test_orders) tt).0 ≡ err too_many_pages))
find_uploaded_example =
    find_uploaded_lem (paged test_orders) test_orders tt (paged-Served test_orders)

abbrev test_sdk_domain : SdkCustomDomain
test_sdk_domain = record {
  account_id = some (codes "1234");
  domain_name = some (codes "www.example.com");
  protocol = some (codes "HTTP");
  cert_config = some (record {
    cert_name = some (codes "web_old");
    certificate = some (codes "old");
    private_key = some (codes "old key");
  });
  auth_config = none;
  cors_config = none;
  route_config = some (codes "routes");
  tls_config = none;
  waf_config = none;
}

custom_domain_from_sdk_secret_example :
    custom_domain_from_sdk
      (record test_sdk_domain { cert_config = with_key none test_sdk_domain.cert_config })
    ≡ custom_domain_from_sdk test_sdk_domain
custom_domain_from_sdk_secret_example = custom_domain_from_sdk_secret test_sdk_domain none

update_input_to_sdk-apply_input_example :
    (body : SdkUpdateInput) × (update_input_to_sdk
        (apply_input (custom_domain_from_sdk test_sdk_domain) test_material https_options)
      ≡ ok body)
    × (body.auth_config ≡ none)
    × (body.cors_config ≡ none)
    × (body.route_config ≡ some (codes "routes"))
    × (body.tls_config ≡ none)
    × (body.waf_config ≡ none)
    × (body.cert_config
        ≡ some (record {
          cert_name = some (codes "web_0123abcd");
          certificate = some crt;
          private_key = some key;
        }))
    × (body.protocol ≡ (
        if not (protocol_has_https (codes "HTTP"))
        then some protocol_both
        else some (codes "HTTP")))
update_input_to_sdk-apply_input_example =
    update_input_to_sdk-apply_input test_sdk_domain test_material https_options refl
