-- ===== src/Aliyun/Fake/Cas/Idempotent.antt =====
-- An upload that is tried again.
use le_to_alicloud.Prelude.{
  ◌≡◌, suc, false, none, [], Text, is_empty, lookup-store, arith, ok, Option-cases, inl, inr,
}
use le_to_alicloud.Aliyun.Fake.Queue.{pop}
use le_to_alicloud.Aliyun.Fake.Cas.{
  FakeCas, has_name, id_of_token, commit_upload, upload_stored, upload,
}

-- A certificate that was uploaded under a new name and a new token is stored once, even if the answer
-- was lost: another upload with this token, whatever its name, is answered with the certId that the
-- first one got, and stores nothing.
pub upload-upload :
    (name other cert key token : Text) (f : FakeCas)
    → is_empty token ≡ false
    → id_of_token token f ≡ none
    → has_name name f.certs ≡ false
    → f.upload_errs ≡ []
    → let once = (upload name cert key token f).1 in
      ((upload other cert key token once).0 ≡ ok (suc f.next_id))
      × ((upload other cert key token once).1.certs ≡ once.certs)
unfolding upload upload_stored commit_upload id_of_token pop
upload-upload name other cert key token f named new unique quiet =
    let stored = lookup-store token (suc f.next_id) f.by_token in
    elim (Option-cases f.fail_after_commit) [
      | inl answered ↦ (
        ground (arith, named, new, unique, quiet, answered, stored),
        ground (arith, named, new, unique, quiet, answered, stored),
      )
      | inr (e, lost) ↦ (
        ground (arith, named, new, unique, quiet, lost, stored),
        ground (arith, named, new, unique, quiet, lost, stored),
      )
    ]
