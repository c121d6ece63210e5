-- ===== src/Provider/Fc3/RoundTrip.antt =====
-- What the FC3 provider leaves in the cloud, here the one in memory, and sees of it afterwards.
use le_to_alicloud.Prelude.{
  lookup, store, lookup-store, ◌≡◌, ap, ◌⊎◌, refl, inl, inr, true, false, some, [], ◌∷◌, Text,
  is_empty, text_eq, arith, if◌then◌else◌, trim_space, to_upper, split_comma, ◌&&◌, not, Bool-cases,
  Option-cases, Res, ok, err, Res-cases,
}
use le_to_alicloud.Aliyun.Errors.{Error}
use le_to_alicloud.Aliyun.Clients.{UpdateCustomDomainInput}
use le_to_alicloud.Aliyun.Fake.Queue.{pop}
use le_to_alicloud.Aliyun.Fake.Fc3.{
  Domain, FakeFc3, err_domain_not_found, custom_domain_of, get_custom_domain, validate_update,
  updated_domain, commit, update_stored, update_custom_domain, fake_fc3_client,
}
use le_to_alicloud.Pki.Crypto.{Crypto}
use le_to_alicloud.Pki.Bundle.{leaf_fingerprint}
use le_to_alicloud.Provider.Types.{CertMaterial}
use le_to_alicloud.Provider.Interface.{Target, ObservedState, ApplyOptions, fc3_client}
use le_to_alicloud.Provider.Fc3.{
  observed_domain, apply_input, fc3_client_of, fc3_observe, fc3_apply, parts_of, split_protocol,
  protocol_both, protocol_has_https,
}

-- What an update that succeeded did: the domain was there, and is there with the change.
abbrev Updated : Text → UpdateCustomDomainInput → FakeFc3 → FakeFc3 → Type 0
Updated domain in_ f after =
    (d : Domain) × (lookup domain f.domains ≡ some d)
    × (after.domains ≡ store domain (updated_domain in_ d) f.domains)
    × (after.account_id ≡ f.account_id)
    × (after.get_errs ≡ f.get_errs)

commit-Updated :
    (domain : Text) (in_ : UpdateCustomDomainInput) (d : Domain) (f : FakeFc3)
    → lookup domain f.domains ≡ some d
    → (commit domain in_ d f).0 ≡ ok tt
    → Updated domain in_ f (commit domain in_ d f).1
unfolding commit
commit-Updated domain in_ d f known h = elim (Option-cases f.fail_after_commit) [
  | inl none_ ↦ (d, known, ground (arith, none_), ground (arith, none_), ground (arith, none_))
  | inr (e, failed) ↦ absurd (ground (arith, h, failed))
]

update_custom_domain-Updated :
    (domain : Text) (in_ : UpdateCustomDomainInput) (f : FakeFc3)
    → (update_custom_domain domain in_ f).0 ≡ ok tt
    → Updated domain in_ f (update_custom_domain domain in_ f).1
unfolding update_custom_domain update_stored
update_custom_domain-Updated domain in_ f h =
    let f1 = record f { update_calls = domain ∷ f.update_calls } in
    let f2 = record f1 { update_errs = (pop f.update_errs).1 } in
    elim (Option-cases f.always_update_err) [
      | inr (e, broken) ↦ absurd (ground (arith, h, broken))
      | inl works ↦ elim (Option-cases (pop f.update_errs).0) [
        | inr (e, failed) ↦ absurd (ground (arith, h, works, failed))
        | inl fine ↦ elim (Option-cases (lookup domain f.domains)) [
          | inl gone ↦ absurd (ground (arith, h, works, fine, gone))
          | inr (d, known) ↦ elim (Option-cases (validate_update in_)) [
            | inr (e, bad) ↦ absurd (ground (arith, h, works, fine, known, bad))
            | inl good ↦
                let (d', known', stored, account, errs) =
                  commit-Updated domain in_ d f2 known
                    (ground (arith, h, works, fine, known, good)) in
                (
                  d',
                  known',
                  ground (arith, works, fine, known, good, stored),
                  ground (arith, works, fine, known, good, account),
                  ground (arith, works, fine, known, good, errs),
                )
          ]
        ]
      ]
    ]

-- the domain with another certificate, and another protocol
abbrev pub with_material : Text → CertMaterial → Domain → Domain
with_material protocol m d = record d {
  protocol = protocol;
  cert_name = m.cas_name;
  cert_pem = m.cert_pem;
  key_pem = m.key_pem;
}

abbrev pub protocol_after : ApplyOptions → Text → Text
protocol_after o p =
    if o.ensure_https_protocol && not (protocol_has_https p) then protocol_both else p

get_custom_domain_lem :
    (domain : Text) (f : FakeFc3)
    → ((e : Error) × ((get_custom_domain domain f).0 ≡ err e))
      ⊎ ((d : Domain) × (lookup domain f.domains ≡ some d)
          × ((get_custom_domain domain f).0 ≡ ok (custom_domain_of f.account_id d))
          × ((get_custom_domain domain f).1.domains ≡ f.domains)
          × ((get_custom_domain domain f).1.account_id ≡ f.account_id))
unfolding get_custom_domain
get_custom_domain_lem domain f = elim (Option-cases (pop f.get_errs).0) [
  | inr (e, failed) ↦ inl (e, ground (arith, failed))
  | inl fine ↦ elim (Option-cases (lookup domain f.domains)) [
    | inl gone ↦ inl (err_domain_not_found, ground (arith, fine, gone))
    | inr (d, known) ↦
        inr (d, known, ground (arith, fine, known), ground (arith, fine), ground (arith, fine))
  ]
]

-- If `Apply` of the FC3 provider succeeds on the cloud in memory, the domain was there, and in the
-- cloud afterwards it is the same domain with the certificate, the key and the name of the material,
-- and with "HTTP,HTTPS" for its protocol if HTTPS was asked for and missing. Its other settings, the
-- other domains and the account are as before.
pub fc3_apply_lem :
    (t : Target) (m : CertMaterial) (o : ApplyOptions) (f : FakeFc3)
    → (fc3_apply t (fc3_client fake_fc3_client) m o f).0 ≡ ok tt
    → (d : Domain) × (lookup t.identifier f.domains ≡ some d)
      × ((fc3_apply t (fc3_client fake_fc3_client) m o f).1.domains
          ≡ store t.identifier (with_material (protocol_after o d.protocol) m d) f.domains)
      × ((fc3_apply t (fc3_client fake_fc3_client) m o f).1.account_id ≡ f.account_id)
unfolding fc3_apply fc3_client_of apply_input custom_domain_of updated_domain
fc3_apply_lem t m o f h = elim (Bool-cases (is_empty m.cas_name)) [
  | inl unnamed ↦ absurd (ground (arith, h, unnamed))
  | inr named ↦ elim (get_custom_domain_lem t.identifier f) [
    | inl (e, failed) ↦ absurd (ground (arith, h, named, failed))
    | inr (d, known, got, same, account) ↦
        let f1 = (get_custom_domain t.identifier f).1 in
        let in_ = apply_input (custom_domain_of f.account_id d) m o in
        elim (Res-cases (update_custom_domain t.identifier in_ f1).0) [
          | inr (e, failed) ↦ absurd (ground (arith, h, named, got, failed))
          | inl (_, fine) ↦
              let (d', known', stored, account', _) =
                update_custom_domain-Updated t.identifier in_ f1 fine in
              (
                d,
                known,
                ground (arith, named, got, fine, known, known', same, stored),
                ground (arith, named, got, fine, account, account'),
              )
        ]
  ]
]

get_custom_domain-reads :
    (domain : Text) (d : Domain) (f : FakeFc3)
    → f.get_errs ≡ []
    → lookup domain f.domains ≡ some d
    → (get_custom_domain domain f).0 ≡ ok (custom_domain_of f.account_id d)
unfolding get_custom_domain pop
get_custom_domain-reads domain d f quiet known = ground (arith, quiet, known)

both_has_https : protocol_has_https protocol_both ≡ true
unfolding protocol_has_https split_protocol parts_of split_comma trim_space to_upper text_eq
both_has_https = refl

protocol_after-has_https :
    (o : ApplyOptions) (p : Text)
    → (o.ensure_https_protocol ≡ false) ⊎ (protocol_has_https (protocol_after o p) ≡ true)
protocol_after-has_https o p = elim (Bool-cases o.ensure_https_protocol) [
  | inr off ↦ inl off
  | inl on ↦ elim (Bool-cases (protocol_has_https p)) [
    | inl has ↦ inr (ground (arith, on, has))
    | inr lacks ↦ inr (ground (arith, on, lacks, both_has_https))
  ]
]

-- If the FC3 provider wrote material to the cloud in memory, it then observes the fingerprint of this
-- material, the same account, and HTTPS in the protocol if it was asked for. This holds if the read is
-- answered, and if the certificate of the material is read back with the fingerprint that the material
-- names.
pub fc3_observe-fc3_apply :
    (crypto : Crypto) (t : Target) (m : CertMaterial) (o : ApplyOptions) (f f' : FakeFc3)
    → fc3_apply t (fc3_client fake_fc3_client) m o f ≡ (ok tt, f')
    → f'.get_errs ≡ []
    → is_empty m.cert_pem ≡ false
    → leaf_fingerprint crypto m.cert_pem ≡ ok m.fingerprint
    → (obs : ObservedState) × ((fc3_observe crypto t (fc3_client fake_fc3_client) f').0 ≡ ok obs)
      × (obs.current_fingerprint ≡ m.fingerprint)
      × (obs.account_id ≡ f.account_id)
      × ((o.ensure_https_protocol ≡ false) ⊎ (protocol_has_https obs.protocol ≡ true))
unfolding fc3_observe fc3_client_of observed_domain custom_domain_of
fc3_observe-fc3_apply crypto t m o f f' run quiet nonempty print =
    let (d, known, stored, account) =
      fc3_apply_lem t m o f (ap (λ (x : Res Error Unit × FakeFc3). x.0) run) in
    let same = ap (λ (x : Res Error Unit × FakeFc3). x.1) run in
    let d' = with_material (protocol_after o d.protocol) m d in
    let there : lookup t.identifier f'.domains ≡ some d' =
      ground (arith, same, stored, lookup-store t.identifier d' f.domains) in
    (
      observed_domain crypto (custom_domain_of f'.account_id d'),
      ground (arith, get_custom_domain-reads t.identifier d' f' quiet there),
      ground (arith, nonempty, print),
      ground (arith, same, account),
      protocol_after-has_https o d.protocol,
    )
