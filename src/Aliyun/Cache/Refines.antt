-- ===== src/Aliyun/Cache/Refines.antt =====
-- The cache against a factory that builds a client each time.
use le_to_alicloud.Prelude.{
  ◌≡◌, refl, ◌∙◌, sym, subst, some, List, [], ◌∷◌, map, Text, text_eq, text_eq_iff, lookup, store,
  lookup-store, lookup-store_other, arith, Res, ok, Res-cases, Bool-cases, Option-cases, inl, inr,
  All,
}
use le_to_alicloud.Aliyun.Errors.{Error}
use le_to_alicloud.Aliyun.Cache.{ClientKey, identity, ClientCache, hit, get_or_build}
use le_to_alicloud.Aliyun.Cache.Keys.{PlainKey, SameClient, identity-SameClient}

module _ {T : Type 0} (made : ClientKey → Res Error T) where
  -- Each entry is the client that a fresh build makes for some key of its identity and version.
  abbrev pub Faithful : ClientCache T → Type 0
  Faithful m =
      (id version : Text) (client : T)
      → lookup id m ≡ some (version, client)
      → (k : ClientKey) × PlainKey k
        × (identity k ≡ id)
        × (k.resource_version ≡ version)
        × (made k ≡ ok client)

  same_key : (k l : ClientKey) → SameClient k l → k.resource_version ≡ l.resource_version → k ≡ l
  same_key k l same version = ground (arith, same, version)

  hit-made :
      (k : ClientKey) (m : ClientCache T) (client : T)
      → PlainKey k
      → Faithful m
      → hit k.resource_version (lookup (identity k) m) ≡ some client
      → made k ≡ ok client
  hit-made k m client plain faithful h = elim (Option-cases (lookup (identity k) m)) [
    | inl missing ↦ absurd (ground (arith, h, missing))
    | inr ((version, c), there) ↦ elim (Bool-cases (text_eq version k.resource_version)) [
      | inr stale ↦ absurd (ground (arith, h, there, stale))
      | inl fresh ↦
          let (l, plain_l, same_id, same_version, from) = faithful (identity k) version c there in
          let same = identity-SameClient l k plain_l plain same_id in
          let versions : l.resource_version ≡ k.resource_version =
            same_version ∙ (text_eq_iff version k.resource_version).0 fresh in
          let found : c ≡ client = ground (arith, h, there, fresh) in
          subst (λ x. made x ≡ ok client) (same_key l k same versions) (ground (arith, from, found))
    ]
  ]

  store-Faithful :
      (k : ClientKey) (m : ClientCache T) (client : T)
      → PlainKey k
      → Faithful m
      → made k ≡ ok client
      → Faithful (store (identity k) (k.resource_version, client) m)
  store-Faithful k m client plain faithful built id version c there =
      elim (Bool-cases (text_eq (identity k) id)) [
        | inl same ↦
            let at : identity k ≡ id = (text_eq_iff (identity k) id).0 same in
            let stored = lookup-store (identity k) (k.resource_version, client) m in
            let entry : (k.resource_version ≡ version) × (client ≡ c) =
              ground (arith, there, stored, at) in
            (k, plain, at, entry.0, ground (arith, built, entry.1))
        | inr other ↦
            faithful id version c (
              sym (lookup-store_other (identity k) id (k.resource_version, client) m other) ∙ there)
      ]

  get_or_build_lem :
      (k : ClientKey) (m : ClientCache T)
      → PlainKey k
      → Faithful m
      → ((get_or_build k (made k) m).0 ≡ made k) × Faithful (get_or_build k (made k) m).1
  unfolding get_or_build
  get_or_build_lem k m plain faithful =
      elim (Option-cases (hit k.resource_version (lookup (identity k) m))) [
        | inr (client, h) ↦
            let after : (get_or_build k (made k) m).1 ≡ m = ground (arith, h) in
            (
              ground (arith, h, hit-made k m client plain faithful h),
              subst Faithful (sym after) faithful,
            )
        | inl missed ↦ elim (Res-cases (made k)) [
          | inr (e, failed) ↦
              let after : (get_or_build k (made k) m).1 ≡ m = ground (arith, missed, failed) in
              (ground (arith, missed, failed), subst Faithful (sym after) faithful)
          | inl (client, built) ↦
              let m' = store (identity k) (k.resource_version, client) m in
              let after : (get_or_build k (made k) m).1 ≡ m' = ground (arith, missed, built) in
              (
                ground (arith, missed, built),
                subst Faithful (sym after) (store-Faithful k m client plain faithful built),
              )
        ]
      ]

  -- the answers of the cache to one key after another
  abbrev pub serve : List ClientKey → ClientCache T → List (Res Error T)
  serve [] m = []
  serve (k ∷ ks) m = let (r, m') = get_or_build k (made k) m in r ∷ serve ks m'

  serve-Faithful :
      (ks : List ClientKey) (m : ClientCache T)
      → All PlainKey ks
      → Faithful m
      → serve ks m ≡ map made ks
  serve-Faithful [] m plain faithful = refl
  serve-Faithful (k ∷ ks) m plain faithful =
      let (same, next) = get_or_build_lem k m plain.0 faithful in
      rw (same, serve-Faithful ks (get_or_build k (made k) m).1 plain.1 next) refl

  empty-Faithful : Faithful []
  unfolding lookup
  empty-Faithful id version client there = absurd cc

  -- A cache that starts empty answers every sequence of requests as a factory that builds a client
  -- for each of them: whatever was cached before, a request gets the client of its own namespace,
  -- Secret, version, region, endpoint, resource group and kind, or the error of its build. What is
  -- built depends on the key only, and no part of a key but the kind has a slash.
  pub serve_refines : (ks : List ClientKey) → All PlainKey ks → serve ks [] ≡ map made ks
  serve_refines ks plain = serve-Faithful ks [] plain empty-Faithful
