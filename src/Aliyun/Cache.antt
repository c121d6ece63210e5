-- ===== src/Aliyun/Cache.antt =====
-- pkg/aliyun/cache.go: one client for each identity, of the newest resource version seen.
pub mod Keys
pub mod Refines
use le_to_alicloud.Prelude.{
  Bool, Option, none, some, List, [], ◌∷◌, ◌++◌, Text, codes, text_eq, lookup, store, if◌then◌else◌,
  Res, ok, err,
}
use le_to_alicloud.Aliyun.Errors.{Error}

pub record ClientKey : Type 0 where
  pub namespace : Text
  pub name : Text
  pub resource_version : Text
  pub region : Text
  pub endpoint : Text
  pub resource_group_id : Text
  pub type : Text

-- `s + "/" + rest`
abbrev pub slashed : Text → Text → Text
slashed s rest = s ++ b'/' ∷ rest

-- `identity`
unfoldable pub identity : ClientKey → Text
identity k =
    slashed k.namespace
      (slashed k.name (slashed k.region (slashed k.endpoint (slashed k.resource_group_id k.type))))

-- the entries of a `ClientCache`: the resource version and the client
abbrev pub ClientCache : Type 0 → Type 0
ClientCache T = List (Text × (Text × T))

module _ {T : Type 0} where
  abbrev pub hit : Text → Option (Text × T) → Option T
  hit version none = none
  hit version (some (v, client)) = if text_eq v version then some client else none

  -- `GetOrBuild`; `build` is the closure's answer
  unfoldable pub get_or_build :
      ClientKey → Res Error T → ClientCache T → Res Error T × ClientCache T
  get_or_build key build m = elim (hit key.resource_version (lookup (identity key) m)) [
    | some client ↦ (ok client, m)
    | none ↦ elim build [
      | err e ↦ (err e, m)
      | ok client ↦ (ok client, store (identity key) (key.resource_version, client) m)
    ]
  ]
