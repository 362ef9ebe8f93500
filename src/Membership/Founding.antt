-- ===== src/Membership/Founding.antt =====
-- The members of a cluster that `NewClusterFromURLsMap` of etcdserver/api/membership/cluster.go
-- made, and the search for one by its name.
use etcd_cr.Common.{
  ℕ, suc, ◌≡◌, ◌⊎◌, inl, inr, refl, sym, ap, ap₂, ◌∙◌, Bool, true, false, ◌||◌, Option, none, some,
  List, [], ◌∷◌, map, arith, length, ◌==◌, if◌then◌else◌, Result, ok, panic, bind_ok, ok_injective,
}
use etcd_cr.Common.Maps.{has, lookup, insert}
use etcd_cr.Quorum.{insert_sorted, sort_ids}
use etcd_cr.Quorum.Sorting.{sort_ids_lem}
use etcd_cr.Membership.{
  Bytes, Member, RaftCluster, equal, clone, new_member, member_id, member_ids, values, gen_id,
  add_members, new_cluster, new_cluster_from_urls_map, search_name, member_by_name,
}
use etcd_cr.Membership.Identity.{id_of, added, add_members-map, ids_of-entries}
use etcd_cr.Membership.Listing.{clone-eq}

past_panic :
    (logs : Bool) (r : Result (Option Member)) (m : Member)
    → (if logs then panic else r) ≡ ok (some m)
    → r ≡ ok (some m)
past_panic true r m h = cc
past_panic false r m h = h

-- What `search_name` finds is what it had, or a member of the list.
search_name-found :
    (logs : Bool) (name : Bytes) (ms : List Member) (found : Option Member) (m : Member)
    → search_name logs name found ms ≡ ok (some m)
    → (found ≡ some m) ⊎ (has m.id (map member_id ms) ≡ true)
unfolding search_name
search_name-found logs name [] found m h = inl (ok_injective h)
search_name-found logs name (x ∷ ms) found m h =
    by_name (equal x.name name) found (λ found h. search_name-found logs name ms found m h) h
  where
    later :
        (found : Option Member)
        → (found ≡ some m) ⊎ (has m.id (map member_id ms) ≡ true)
        → (found ≡ some m) ⊎ (has m.id (map member_id (x ∷ ms)) ≡ true)
    later found (inl e) = inl e
    later found (inr e) = inr (ground arith)

    taken :
        (found : Option Member)
        → (some x ≡ some m) ⊎ (has m.id (map member_id ms) ≡ true)
        → (found ≡ some m) ⊎ (has m.id (map member_id (x ∷ ms)) ≡ true)
    taken found (inl e) =
        let same : x.id ≡ m.id = ap (λ o. elim o [ none ↦ 0 | some y ↦ y.id ]) e in
        inr (ground arith)
    taken found (inr e) = inr (ground arith)

    by_name :
        (b : Bool) (found : Option Member)
        → ((found : Option Member)
            → search_name logs name found ms ≡ ok (some m)
            → (found ≡ some m) ⊎ (has m.id (map member_id ms) ≡ true))
        → elim b [
          | false ↦ search_name logs name found ms
          | true ↦ elim found [
            | none ↦ search_name logs name (some x) ms
            | some _ ↦ if logs then panic else search_name logs name (some x) ms
          ]
        ]
          ≡ ok (some m)
        → (found ≡ some m) ⊎ (has m.id (map member_id (x ∷ ms)) ≡ true)
    by_name false found go h = later found (go found h)
    by_name true none go h = taken none (go (some x) h)
    by_name true (some y) go h =
        taken (some y) (go (some x) (past_panic logs (search_name logs name (some x) ms) m h))

-- A member that `MemberByName` returns is one of the cluster's.
pub member_by_name-has :
    (c : RaftCluster) (name : Bytes) (m : Member)
    → member_by_name c name ≡ ok (some m)
    → has m.id (member_ids c) ≡ true
unfolding member_by_name member_ids
member_by_name-has c name m h =
    let (found, finds, cloned) =
      bind_ok (search_name c.logs name none (values c.members)) (λ found. ok (clone found)) (some m)
        h in
    let same : found ≡ some m = sym (clone-eq found) ∙ ok_injective cloned in
    (sort_ids_lem (map member_id (values c.members))).1 m.id
    ∙ in_list (search_name-found c.logs name (values c.members) none m (finds ∙ ap ok same))
  where
    in_list :
        (none ≡ some m) ⊎ (has m.id (map member_id (values c.members)) ≡ true)
        → has m.id (map member_id (values c.members)) ≡ true
    in_list (inl e) = cc
    in_list (inr e) = e

length-insert_sorted : (x : ℕ) (xs : List ℕ) → length (insert_sorted x xs) ≡ suc (length xs)
length-insert_sorted x [] = refl
length-insert_sorted x (y ∷ ys) = ground (arith, length-insert_sorted x ys)

length-sort_ids : (xs : List ℕ) → length (sort_ids xs) ≡ length xs
unfolding sort_ids
length-sort_ids [] = refl
length-sort_ids (x ∷ xs) = length-insert_sorted x (sort_ids xs) ∙ ap suc (length-sort_ids xs)

module _ (sha1 : Bytes → Bytes) (token : Bytes) where
  has-zero_id :
      (urlsmap : List (Bytes × List Bytes)) (ms out : List (ℕ × Member))
      → add_members sha1 token urlsmap ms ≡ ok out
      → has 0 (map (id_of sha1 token) urlsmap) ≡ false
  unfolding add_members
  has-zero_id [] ms out h = refl
  has-zero_id ((name, urls) ∷ rest) ms out h =
      let m = new_member sha1 name urls token none false in
      let (free, nonzero, went) =
        added sha1 token (lookup m.id ms) (m.id == 0) m.id
          (add_members sha1 token rest (insert m.id m ms)) out h in
      ap₂ ◌||◌ nonzero (has-zero_id rest (insert m.id m ms) out went)

  length-map :
      (urlsmap : List (Bytes × List Bytes))
      → length (map (id_of sha1 token) urlsmap) ≡ length urlsmap
  length-map [] = refl
  length-map (e ∷ rest) = ap suc (length-map rest)

  -- The ids of a new cluster: one for each entry of the map, and none is 0.
  pub new_cluster-ids :
      (logs : Bool) (urlsmap : List (Bytes × List Bytes)) (c : RaftCluster)
      → new_cluster_from_urls_map sha1 logs token urlsmap ≡ ok c
      → (length (member_ids c) ≡ length urlsmap) × (has 0 (member_ids c) ≡ false)
  unfolding new_cluster_from_urls_map new_cluster gen_id member_ids
  new_cluster-ids logs urlsmap c h =
      let (ms, run, done) =
        bind_ok (add_members sha1 token urlsmap [])
          (λ members. ok (gen_id sha1 (record (new_cluster logs token) { members = members }))) c
          h in
      let ids : map member_id (values c.members) ≡ map (id_of sha1 token) urlsmap =
        ap {A = RaftCluster} (λ c. map member_id (values c.members)) (sym (ok_injective done))
        ∙ ap (λ l. map member_id (values l)) (add_members-map sha1 token urlsmap [] ms run)
        ∙ ids_of-entries sha1 token urlsmap in
      (
        length-sort_ids (map member_id (values c.members)) ∙ ap length ids ∙ length-map urlsmap,
        (sort_ids_lem (map member_id (values c.members))).1 0
            ∙ ap (has 0) ids
            ∙ has-zero_id urlsmap [] ms run,
      )
