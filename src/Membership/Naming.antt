-- ===== src/Membership/Naming.antt =====
-- `MemberByName` of etcdserver/api/membership/cluster.go, on a cluster that `NewClusterFromURLsMap`
-- made of a map of names and URLs.
use etcd_cr.Common.{
  ◌≡◌, refl, sym, ap, ◌∙◌, Bool, true, false, Option, none, some, List, [], ◌∷◌, map, arith,
  if◌then◌else◌, ok, ◌>>=◌, bind_ok, ok_injective, Bool-cases, inl, inr,
}
use etcd_cr.Membership.{
  Bytes, Member, RaftCluster, equal, has_name, clone, new_member, values, gen_id, add_members,
  new_cluster, new_cluster_from_urls_map, search_name, member_by_name,
}
use etcd_cr.Membership.Identity.{entry, add_members-map}
use etcd_cr.Membership.Listing.{clone-eq}

-- The names of a Go map are distinct.
abbrev pub DistinctNames : List (Bytes × List Bytes) → Type 0
DistinctNames [] = Unit {0}
DistinctNames ((n, urls) ∷ m) = (has_name n m ≡ false) × DistinctNames m

equal_sound : (xs ys : Bytes) → equal xs ys ≡ true → xs ≡ ys
equal_sound [] [] h = refl
equal_sound [] (y ∷ ys) h = cc
equal_sound (x ∷ xs) [] h = cc
equal_sound (x ∷ xs) (y ∷ ys) h = ground (arith, equal_sound xs ys)

module _ (logs : Bool) (name : Bytes) (x : Member) (ms : List Member) where
  search_name-skips :
      (found : Option Member)
      → equal x.name name ≡ false
      → search_name logs name found (x ∷ ms) ≡ search_name logs name found ms
  unfolding search_name
  search_name-skips found e = rw (e, search_name) refl

  search_name-takes :
      equal x.name name ≡ true
      → search_name logs name none (x ∷ ms) ≡ search_name logs name (some x) ms
  unfolding search_name
  search_name-takes e = rw (e, search_name) refl

module _ (sha1 : Bytes → Bytes) (token : Bytes) where
  abbrev member_of : Bytes → List Bytes → Member
  member_of n urls = new_member sha1 n urls token none false

  abbrev members_of : List (Bytes × List Bytes) → List Member
  members_of m = values (map (entry sha1 token) m)

  name_of : (n : Bytes) (urls : List Bytes) → (member_of n urls).name ≡ n
  unfolding new_member
  name_of n urls = refl

  entry-member :
      (n : Bytes) (urls : List Bytes) (m : List (Bytes × List Bytes))
      → members_of ((n, urls) ∷ m) ≡ member_of n urls ∷ members_of m
  unfolding entry
  entry-member n urls m = refl

  module _ (logs : Bool) (name : Bytes) where
    -- No member has a name that the map does not have.
    search_name-passes :
        (m : List (Bytes × List Bytes)) (found : Option Member)
        → has_name name m ≡ false
        → search_name logs name found (members_of m) ≡ ok found
    unfolding search_name
    search_name-passes [] found h = refl
    search_name-passes ((n, urls) ∷ m) found h =
        let (other, rest) : (equal n name ≡ false) × (has_name name m ≡ false) = ground arith in
        ap (search_name logs name found) (entry-member n urls m)
        ∙ search_name-skips logs name (member_of n urls) (members_of m) found
            (ap (λ t. equal t name) (name_of n urls) ∙ other)
        ∙ search_name-passes m found rest

    search_name-one :
        (m : List (Bytes × List Bytes))
        → DistinctNames m
        → has_name name m ≡ true
        → (x : Member) × (search_name logs name none (members_of m) ≡ ok (some x)) × (x.name ≡ name)
    search_name-one [] d h = cc
    search_name-one ((n, urls) ∷ m) (once, d) h = elim (Bool-cases (equal n name)) [
      | inl e ↦
          let same = equal_sound n name e in
          (
            member_of n urls,
            ap (search_name logs name none) (entry-member n urls m)
                ∙ search_name-takes logs name (member_of n urls) (members_of m)
                    (ap (λ t. equal t name) (name_of n urls) ∙ e)
                ∙ search_name-passes m (some (member_of n urls))
                    (ap (λ t. has_name t m) (sym same) ∙ once),
            name_of n urls ∙ same,
          )
      | inr e ↦
          let (x, finds, named) =
            search_name-one m d (sym (ap (λ b. if b then true else has_name name m) e) ∙ h) in
          (
            x,
            ap (search_name logs name none) (entry-member n urls m)
                ∙ search_name-skips logs name (member_of n urls) (members_of m) none
                    (ap (λ t. equal t name) (name_of n urls) ∙ e)
                ∙ finds,
            named,
          )
    ]

  values-new_cluster :
      (logs : Bool) (m : List (Bytes × List Bytes)) (c : RaftCluster)
      → new_cluster_from_urls_map sha1 logs token m ≡ ok c
      → values c.members ≡ members_of m
  unfolding new_cluster_from_urls_map new_cluster gen_id
  values-new_cluster logs m c h =
      let (ms, run, done) =
        bind_ok (add_members sha1 token m [])
          (λ members. ok (gen_id sha1 (record (new_cluster logs token) { members = members }))) c
          h in
      ap {A = RaftCluster} (λ c. values c.members) (sym (ok_injective done))
      ∙ ap values (add_members-map sha1 token m [] ms run)

  -- A new cluster finds a member of each name of the map.
  pub member_by_name-new_cluster :
      (logs : Bool) (name : Bytes) (m : List (Bytes × List Bytes)) (c : RaftCluster)
      → new_cluster_from_urls_map sha1 logs token m ≡ ok c
      → DistinctNames m
      → has_name name m ≡ true
      → (x : Member) × (member_by_name c name ≡ ok (some x)) × (x.name ≡ name)
  unfolding member_by_name
  member_by_name-new_cluster logs name m c h d has =
      let (x, finds, named) = search_name-one c.logs name m d has in
      (
        x,
        ap (λ ms. search_name c.logs name none ms >>= λ found. ok (clone found))
              (values-new_cluster logs m c h)
            ∙ ap (λ t. t >>= λ found. ok (clone found)) finds
            ∙ ap ok (clone-eq (some x)),
        named,
      )
