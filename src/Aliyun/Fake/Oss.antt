-- ===== src/Aliyun/Fake/Oss.antt =====
-- pkg/aliyun/fake/oss.go: OSS in memory. A counter of calls is the list of the keys called, newest
-- first. `strings.ToLower` is an argument.
use le_to_alicloud.Prelude.{
  lookup, store, Option, none, some, List, [], ◌∷◌, ◌++◌, Text, codes, is_empty, if◌then◌else◌, Res,
  ok, err,
}
use le_to_alicloud.Run.{Run}
use le_to_alicloud.Aliyun.Errors.{Error, ErrClass, make_cloud, plain}
use le_to_alicloud.Aliyun.Clients.{Cname, OssClient}
use le_to_alicloud.Aliyun.Fake.Queue.{pop}

pub record CnameRecord : Type 0 where
  pub domain : Text
  pub cert_ref : Text
  pub cert_type : Text

pub record FakeOss : Type 0 where
  pub owner : Text
  pub buckets : List (Text × List (Text × CnameRecord))
  pub list_errs : List Error
  pub put_errs : List Error
  pub always_put_err : Option Error
  pub list_calls : List Text
  pub put_calls : List Text

-- `ErrNoSuchBucket`
abbrev pub err_no_such_bucket : Error
err_no_such_bucket =
    make_cloud ErrClass.not_found (codes "ListCname") (codes "NoSuchBucket")
      (plain (codes "no such bucket"))

-- `ErrCnameNotFound`
abbrev pub err_cname_not_found : Error
err_cname_not_found =
    make_cloud ErrClass.not_found (codes "ListCname") (codes "CnameNotFound")
      (plain (codes "no such domain"))

abbrev record_in : Text → List (Text × CnameRecord) → Res Error CnameRecord
record_in domain b = elim (lookup domain b) [ none ↦ err err_cname_not_found | some r ↦ ok r ]

-- the record of a bucket and a domain in lower case
unfoldable pub cname_record : Text → Text → FakeOss → Res Error CnameRecord
cname_record bucket domain f = elim (lookup bucket f.buckets) [
  | none ↦ err err_no_such_bucket
  | some b ↦ record_in domain b
]

abbrev cname_of : Text → CnameRecord → Cname
cname_of owner r = record { domain = r.domain; cert_ref = r.cert_ref; account_id = owner }

abbrev put_in : Text → Text → CnameRecord → Option (List (Text × CnameRecord)) → FakeOss → FakeOss
put_in bucket domain r none f = f
put_in bucket domain r (some b) f = record f { buckets = store bucket (store domain r b) f.buckets }

module _ (to_lower : Text → Text) where
  -- `cnameKey`
  abbrev pub cname_key : Text → Text → Text
  cname_key bucket domain = bucket ++ (codes "/" ++ to_lower domain)

  -- `GetCname`
  unfoldable pub get_cname : Text → Text → Run Error FakeOss Cname
  get_cname bucket domain f =
      let (failure, rest) = pop f.list_errs in
      let f' = record f { list_calls = cname_key bucket domain ∷ f.list_calls; list_errs = rest } in
      elim failure [
        | some e ↦ (err e, f')
        | none ↦ elim (cname_record bucket (to_lower domain) f) [
          | err e ↦ (err e, f')
          | ok r ↦ (ok (cname_of f.owner r), f')
        ]
      ]

  -- the change of a record that is there
  unfoldable pub mutate_record : Text → Text → (CnameRecord → CnameRecord) → Run Error FakeOss Unit
  mutate_record bucket domain mutate f = elim (cname_record bucket (to_lower domain) f) [
    | err e ↦ (err e, f)
    | ok r ↦ (ok tt, put_in bucket (to_lower domain) (mutate r) (lookup bucket f.buckets) f)
  ]

  -- `write`
  unfoldable pub write : Text → Text → (CnameRecord → CnameRecord) → Run Error FakeOss Unit
  write bucket domain mutate f =
      let f1 = record f { put_calls = cname_key bucket domain ∷ f.put_calls } in
      elim f.always_put_err [
        | some e ↦ (err e, f1)
        | none ↦
            let (failure, rest) = pop f1.put_errs in
            let f2 = record f1 { put_errs = rest } in
            elim failure [ some e ↦ (err e, f2) | none ↦ mutate_record bucket domain mutate f2 ]
      ]

  -- `PutCnameCert`
  unfoldable pub put_cname_cert : Text → Text → Text → Run Error FakeOss Unit
  put_cname_cert bucket domain cert_ref f =
      if is_empty cert_ref
      then (
        err (
            make_cloud ErrClass.permanent (codes "PutCname") (codes "InvalidArgument")
              (plain (codes "empty certRef"))),
        f,
      )
      else write bucket domain (λ r. record r { cert_ref = cert_ref; cert_type = codes "CAS" }) f

  -- `DeleteCnameCert`
  unfoldable pub delete_cname_cert : Text → Text → Run Error FakeOss Unit
  delete_cname_cert bucket domain f =
      write bucket domain (λ r. record r { cert_ref = []; cert_type = [] }) f

  abbrev pub fake_oss_client : OssClient FakeOss
  fake_oss_client = record {
    get_cname = get_cname;
    put_cname_cert = put_cname_cert;
    delete_cname_cert = delete_cname_cert;
  }
