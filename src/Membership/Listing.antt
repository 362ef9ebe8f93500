-- ===== src/Membership/Listing.antt =====
-- `Members` and `Member` of etcdserver/api/membership/cluster.go.
use mathlib.Core.List.{Permᴰ}
use mathlib.Core.List.Permᴰ
use etcd_cr.Common.{
  ◌≡◌, refl, sym, ap₂, subst, Bool, true, false, Option, none, some, List, [], ◌∷◌, map, arith, ltb,
  if◌then◌else◌,
}
use etcd_cr.Quorum.Sorting.{IsAscending}
use etcd_cr.Membership.{
  Bytes, Member, RaftCluster, clone, clone_member, insert_member, sort_members, values, member_id,
  members_by_id,
}

copied_slice : (o : Option (List Bytes)) → elim o [ none ↦ none | some us ↦ some us ] ≡ o
copied_slice none = refl
copied_slice (some us) = refl

-- A clone has the fields of its member.
pub clone-eq : (o : Option Member) → clone o ≡ o
unfolding clone
clone-eq none = refl
clone-eq (some m) =
    ap₂ (λ p c. some (record m { peer_urls = p; client_urls = c })) (copied_slice m.peer_urls)
      (copied_slice m.client_urls)

map-clone_member : (ms : List Member) → map clone_member ms ≡ ms
unfolding clone
map-clone_member [] = refl
map-clone_member (m ∷ ms) =
    ap₂ ◌∷◌
      (ap₂ {A = Option (List Bytes)} (λ p c. record m { peer_urls = p; client_urls = c })
        (copied_slice m.peer_urls) (copied_slice m.client_urls))
      (map-clone_member ms)

insert_member-perm : (m : Member) (ms : List Member) → Permᴰ (insert_member m ms) (m ∷ ms)
insert_member-perm m [] = Permᴰ.refl (m ∷ [])
insert_member-perm m (x ∷ xs) = at_first (ltb x.id m.id) (insert_member-perm m xs)
  where
    at_first :
        (b : Bool)
        → Permᴰ (insert_member m xs) (m ∷ xs)
        → Permᴰ (if b then x ∷ insert_member m xs else m ∷ x ∷ xs) (m ∷ x ∷ xs)
    at_first true p = Permᴰ.trans (Permᴰ.cons refl p) (Permᴰ.swap refl refl)
    at_first false p = Permᴰ.refl (m ∷ x ∷ xs)

sort_members-perm : (ms : List Member) → Permᴰ (sort_members ms) ms
unfolding sort_members
sort_members-perm [] = Permᴰ.nil
sort_members-perm (m ∷ ms) =
    Permᴰ.trans (insert_member-perm m (sort_members ms)) (Permᴰ.cons refl (sort_members-perm ms))

insert_member-IsAscending :
    (m : Member) (ms : List Member)
    → IsAscending (map member_id ms)
    → IsAscending (map member_id (insert_member m ms))
insert_member-IsAscending m [] s = (tt, tt)
insert_member-IsAscending m (x ∷ []) s = ground arith
insert_member-IsAscending m (x ∷ y ∷ ms) s =
    ground (arith, insert_member-IsAscending m (y ∷ ms) s.1)

sort_members-IsAscending : (ms : List Member) → IsAscending (map member_id (sort_members ms))
unfolding sort_members
sort_members-IsAscending [] = tt
sort_members-IsAscending (m ∷ ms) =
    insert_member-IsAscending m (sort_members ms) (sort_members-IsAscending ms)

-- `Members` returns a copy of each member of the cluster, none twice and none left out, in ascending
-- order of their ids.
pub members_by_id_lem :
    (c : RaftCluster)
    → IsAscending (map member_id (members_by_id c)) × Permᴰ (members_by_id c) (values c.members)
unfolding members_by_id
members_by_id_lem c =
    subst
      (λ ms.
        IsAscending (map member_id (sort_members ms)) × Permᴰ (sort_members ms) (values c.members))
      (sym (map-clone_member (values c.members)))
      (sort_members-IsAscending (values c.members), sort_members-perm (values c.members))
