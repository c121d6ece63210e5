-- ===== src/Provider/Oss/RoundTrip.antt =====
-- What the OSS provider leaves in the cloud, here the one in memory, and sees of it afterwards.
use le_to_alicloud.Prelude.{
  lookup, store, lookup-store, ◌≡◌, ap, ◌∙◌, sym, subst, refl, codes, inl, inr, false, [], ◌∷◌,
  Text, is_empty, arith, Bool-cases, Option-cases, Res, ok, Res-cases,
}
use le_to_alicloud.Api.Binding.{OssCustomDomainTarget}
use le_to_alicloud.Aliyun.Errors.{Error}
use le_to_alicloud.Aliyun.Fake.Queue.{pop}
use le_to_alicloud.Aliyun.Fake.Oss.{
  CnameRecord, FakeOss, cname_key, cname_record, get_cname, mutate_record, write, put_cname_cert,
  fake_oss_client,
}
use le_to_alicloud.Provider.Types.{CertMaterial, cas_cert_ref}
use le_to_alicloud.Provider.Interface.{Target, oss_spec, ObservedState, ApplyOptions, oss_client}
use le_to_alicloud.Provider.Oss.{observed_cname, oss_client_of, oss_spec_of, oss_observe, oss_apply}

abbrev bound : Text → CnameRecord → CnameRecord
bound cert_ref r = record r { cert_ref = cert_ref; cert_type = codes "CAS" }

module _ (to_lower : Text → Text) where
  -- What a change that succeeded did: the record was there, and is there with the change.
  abbrev Changed : Text → Text → (CnameRecord → CnameRecord) → FakeOss → FakeOss → Type 0
  Changed bucket domain mutate f after =
      (r : CnameRecord) × (cname_record bucket (to_lower domain) f ≡ ok r)
      × (cname_record bucket (to_lower domain) after ≡ ok (mutate r))
      × (after.owner ≡ f.owner)
      × (after.list_errs ≡ f.list_errs)

  mutate_record-Changed :
      (bucket domain : Text) (mutate : CnameRecord → CnameRecord) (f : FakeOss)
      → (mutate_record to_lower bucket domain mutate f).0 ≡ ok tt
      → Changed bucket domain mutate f (mutate_record to_lower bucket domain mutate f).1
  unfolding mutate_record cname_record
  mutate_record-Changed bucket domain mutate f h = elim (Option-cases (lookup bucket f.buckets)) [
    | inl gone ↦ absurd (ground (arith, h, gone))
    | inr (b, there) ↦ elim (Option-cases (lookup (to_lower domain) b)) [
      | inl missing ↦ absurd (ground (arith, h, there, missing))
      | inr (r, known) ↦ (
        r,
        ground (arith, there, known),
        ground (
          arith,
          there,
          known,
          lookup-store bucket (store (to_lower domain) (mutate r) b) f.buckets,
          lookup-store (to_lower domain) (mutate r) b,
        ),
        ground (arith, there, known),
        ground (arith, there, known),
      )
    ]
  ]

  write-Changed :
      (bucket domain : Text) (mutate : CnameRecord → CnameRecord) (f : FakeOss)
      → (write to_lower bucket domain mutate f).0 ≡ ok tt
      → Changed bucket domain mutate f (write to_lower bucket domain mutate f).1
  unfolding write cname_record
  write-Changed bucket domain mutate f h = elim (Option-cases f.always_put_err) [
    | inr (e, broken) ↦ absurd (ground (arith, h, broken))
    | inl works ↦ elim (Option-cases (pop f.put_errs).0) [
      | inr (e, failed) ↦ absurd (ground (arith, h, works, failed))
      | inl fine ↦
          let f1 = record f { put_calls = cname_key to_lower bucket domain ∷ f.put_calls } in
          let f2 = record f1 { put_errs = (pop f.put_errs).1 } in
          let runs : write to_lower bucket domain mutate f
              ≡ mutate_record to_lower bucket domain mutate f2 =
            ground (arith, works, fine) in
          subst (λ x. Changed bucket domain mutate f x.1) (sym runs)
            (mutate_record-Changed bucket domain mutate f2
              (ap (λ (x : Res Error Unit × FakeOss). x.0) (sym runs) ∙ h))
    ]
  ]

  -- If the OSS provider wrote material to the cloud in memory, it then observes the reference to the
  -- certificate of this material, which is not empty, and the same account. This holds for a target
  -- with a bucket, if the read is answered.
  pub oss_observe-oss_apply :
      (t : Target) (s : OssCustomDomainTarget) (m : CertMaterial) (o : ApplyOptions)
      (f f' : FakeOss)
      → t.spec ≡ oss_spec s
      → oss_apply t (oss_client (fake_oss_client to_lower)) m o f ≡ (ok tt, f')
      → f'.list_errs ≡ []
      → (obs : ObservedState) × ((oss_observe t (oss_client (fake_oss_client to_lower)) f').0
          ≡ ok obs)
        × (obs.current_cert_ref ≡ cas_cert_ref m)
        × (is_empty obs.current_cert_ref ≡ false)
        × (obs.account_id ≡ f.owner)
  unfolding oss_apply oss_observe oss_client_of oss_spec_of observed_cname put_cname_cert get_cname
      pop
  oss_observe-oss_apply t s m o f f' spec run quiet =
      elim (Bool-cases (is_empty (cas_cert_ref m))) [
        | inl empty ↦ absurd (ground (arith, spec, run, empty))
        | inr named ↦
            elim (Res-cases (write to_lower s.bucket s.domain_name (bound (cas_cert_ref m)) f).0) [
              | inr (e, failed) ↦ absurd (ground (arith, spec, run, named, failed))
              | inl (_, fine) ↦
                  let (r, before, after, owner, errs) =
                    write-Changed s.bucket s.domain_name (bound (cas_cert_ref m)) f fine in
                  let same : (write to_lower s.bucket s.domain_name (bound (cas_cert_ref m)) f).1
                      ≡ f' =
                    ground (arith, spec, run, named, fine) in
                  let there : cname_record s.bucket (to_lower s.domain_name) f'
                      ≡ ok (bound (cas_cert_ref m) r) =
                    subst
                      (λ x.
                        cname_record s.bucket (to_lower s.domain_name) x
                        ≡ ok (bound (cas_cert_ref m) r))
                      same after in
                  (
                    observed_cname (record {
                      domain = r.domain;
                      cert_ref = cas_cert_ref m;
                      account_id = f'.owner;
                    }),
                    ground (arith, spec, quiet, there),
                    refl,
                    named,
                    ap (λ (x : FakeOss). x.owner) (sym same) ∙ owner,
                  )
            ]
      ]
