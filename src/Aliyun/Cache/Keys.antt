-- ===== src/Aliyun/Cache/Keys.antt =====
-- Two keys whose parts have no slash have one identity only if they agree.
use le_to_alicloud.Prelude.{◌≡◌, refl, false, [], ◌∷◌, ◌++◌, Text, any, ◌==◌, arith}
use le_to_alicloud.Aliyun.Cache.{ClientKey, identity}

abbrev pub Plain : Text → Type 0
Plain t = any (λ c. c == b'/') t ≡ false

-- The parts of the identity have no slash.
abbrev pub PlainKey : ClientKey → Type 0
PlainKey k =
    Plain k.namespace × Plain k.name × Plain k.region × Plain k.endpoint × Plain k.resource_group_id

-- The keys name the same client, of some version.
abbrev pub SameClient : ClientKey → ClientKey → Type 0
SameClient k l =
    (k.namespace ≡ l.namespace)
    × (k.name ≡ l.name)
    × (k.region ≡ l.region)
    × (k.endpoint ≡ l.endpoint)
    × (k.resource_group_id ≡ l.resource_group_id)
    × (k.type ≡ l.type)

split_slash :
    (s t u v : Text) → Plain s → Plain t → s ++ b'/' ∷ u ≡ t ++ b'/' ∷ v → (s ≡ t) × (u ≡ v)
split_slash [] [] u v hs ht e = (refl, cc)
split_slash [] (d ∷ t) u v hs ht e = absurd (ground (arith, hs, ht, e))
split_slash (c ∷ s) [] u v hs ht e = absurd (ground (arith, hs, ht, e))
split_slash (c ∷ s) (d ∷ t) u v hs ht e =
    let (same, rest) = split_slash s t u v (ground (arith, hs)) (ground (arith, ht)) cc in
    (ground (arith, same, e), rest)

-- If no part of two keys but the type has a slash, and the keys have one identity, then they agree
-- on the namespace, the name, the region, the endpoint, the resource group and the type: no client is
-- taken for that of another account, region or kind.
pub identity-SameClient :
    (k l : ClientKey) → PlainKey k → PlainKey l → identity k ≡ identity l → SameClient k l
unfolding identity
identity-SameClient k l (k1, k2, k3, k4, k5) (l1, l2, l3, l4, l5) e =
    let (e1, r1) = split_slash k.namespace l.namespace _ _ k1 l1 e in
    let (e2, r2) = split_slash k.name l.name _ _ k2 l2 r1 in
    let (e3, r3) = split_slash k.region l.region _ _ k3 l3 r2 in
    let (e4, r4) = split_slash k.endpoint l.endpoint _ _ k4 l4 r3 in
    let (e5, r5) = split_slash k.resource_group_id l.resource_group_id _ _ k5 l5 r4 in
    (e1, e2, e3, e4, e5, r5)
