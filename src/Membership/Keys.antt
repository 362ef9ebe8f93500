-- ===== src/Membership/Keys.antt =====
-- The keys of etcdserver/api/membership/store.go, and the way that `(*applierV2store).Put` of
-- etcdserver/apply_v2.go takes the member's id out of one. `path.Join` of elements that are clean and
-- not empty puts a `/` between them; `path.Dir` and `path.Base` are written out for rooted paths
-- that are clean.
use etcd_cr.Common.{
  ℕ, ◌<◌, ◌≡◌, refl, ap, ◌∙◌, false, List, [], ◌∷◌, ◌++◌, arith, ◌==◌, if◌then◌else◌, u64_mod,
}
use etcd_cr.Common.Maps.{has, has-append}
use etcd_cr.Types.{id_string, id_from_string}
use etcd_cr.Types.Ids.{id_from_string-id_string, has-id_string}

-- `/`
abbrev pub slash : ℕ
slash = 47

-- `StoreMembersPrefix`, the text "/0/members".
abbrev pub store_members_prefix : List ℕ
store_members_prefix = 47 ∷ 48 ∷ 47 ∷ 109 ∷ 101 ∷ 109 ∷ 98 ∷ 101 ∷ 114 ∷ 115 ∷ []

-- `attributesSuffix`, the text "attributes".
abbrev pub attributes_suffix : List ℕ
attributes_suffix = 97 ∷ 116 ∷ 116 ∷ 114 ∷ 105 ∷ 98 ∷ 117 ∷ 116 ∷ 101 ∷ 115 ∷ []

abbrev pub join : List ℕ → List ℕ → List ℕ
join a b = a ++ slash ∷ b

-- `MemberStoreKey`
unfoldable pub member_store_key : ℕ → List ℕ
member_store_key id = join store_members_prefix (id_string id)

-- `MemberAttributesStorePath`
unfoldable pub member_attributes_store_path : ℕ → List ℕ
member_attributes_store_path id = join (member_store_key id) attributes_suffix

-- What stands behind the last `/`, and what stands before it.
unfoldable pub base : List ℕ → List ℕ
base [] = []
base (c ∷ cs) = if has slash cs then base cs else if c == slash then cs else c ∷ cs

unfoldable pub dir : List ℕ → List ℕ
dir [] = []
dir (c ∷ cs) = if has slash cs then c ∷ dir cs else []

-- `MustParseMemberIDFromKey`: an error is only printed.
unfoldable pub must_parse_member_id_from_key : List ℕ → ℕ
must_parse_member_id_from_key key = (id_from_string (base key)).0

base-append : (xs ys : List ℕ) → has slash ys ≡ false → base (xs ++ slash ∷ ys) ≡ ys
unfolding base
base-append [] ys n = ground arith
base-append (x ∷ xs) ys n = ground (arith, base-append xs ys n, has-append slash xs (slash ∷ ys))

dir-append : (xs ys : List ℕ) → has slash ys ≡ false → dir (xs ++ slash ∷ ys) ≡ xs
unfolding dir
dir-append [] ys n = ground arith
dir-append (x ∷ xs) ys n = ground (arith, dir-append xs ys n, has-append slash xs (slash ∷ ys))

-- The id of a member comes back from the key of its attributes, the way that a published request
-- carries it: the last part of the key's directory is the text of the id.
pub must_parse-member_attributes :
    (id : ℕ)
    → id < u64_mod
    → must_parse_member_id_from_key (dir (member_attributes_store_path id)) ≡ id
unfolding must_parse_member_id_from_key member_attributes_store_path member_store_key
must_parse-member_attributes id w =
    ap (λ k. (id_from_string (base k)).0) (dir-append (member_store_key id) attributes_suffix refl)
    ∙ ap (λ k. (id_from_string k).0)
        (base-append store_members_prefix (id_string id) (has-id_string id))
    ∙ ap (λ r. r.0) (id_from_string-id_string id w)
