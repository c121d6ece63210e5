-- ===== src/Controller/Binding/Conflict.antt =====
-- internal/controller/binding_conflict.go: of the bindings with one target, which one may write.
pub mod Order
pub mod Winner
use le_to_alicloud.Prelude.{
  Bool, true, false, not, ◌&&◌, ◌||◌, Option, none, some, List, [], ◌∷◌, is_empty, is_some, text_lt,
  ltb, ◌==◌, if◌then◌else◌, Res, ok, err, Text,
}
use le_to_alicloud.Api.Binding.{AliyunCertificateBinding, target_key}
use le_to_alicloud.Aliyun.Errors.{Error}

-- `lessBinding`
unfoldable pub less_binding : AliyunCertificateBinding → AliyunCertificateBinding → Bool
less_binding a b =
    if not (a.creation_timestamp == b.creation_timestamp)
    then ltb a.creation_timestamp b.creation_timestamp
    else text_lt a.uid b.uid

-- `!c.DeletionTimestamp.IsZero()`
abbrev pub is_deleting : AliyunCertificateBinding → Bool
is_deleting b = is_some b.deletion_timestamp

-- `winner == nil || lessBinding(c, winner)`
abbrev pub beats : AliyunCertificateBinding → Option AliyunCertificateBinding → Bool
beats c none = true
beats c (some w) = less_binding c w

-- the loop of `pickWinner`
unfoldable pub pick_from :
    Option AliyunCertificateBinding
    → List AliyunCertificateBinding
    → Option AliyunCertificateBinding
pick_from winner [] = winner
pick_from winner (c ∷ items) =
    pick_from (if is_deleting c then winner else (if beats c winner then some c else winner)) items

-- `pickWinner`
unfoldable pub pick_winner : List AliyunCertificateBinding → Option AliyunCertificateBinding
pick_winner items = pick_from none items

-- `arbitrate`; the list of the bindings of a target key comes from the cache.
unfoldable pub arbitrate :
    (Text → Res Error (List AliyunCertificateBinding))
    → AliyunCertificateBinding
    → Res Error AliyunCertificateBinding
arbitrate list b = if is_empty (target_key b) then ok b else elim (list (target_key b)) [
  | err e ↦ err e
  | ok items ↦ elim (pick_winner items) [ none ↦ ok b | some w ↦ ok w ]
]
