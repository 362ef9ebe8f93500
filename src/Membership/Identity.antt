-- ===== src/Membership/Identity.antt =====
-- The id of a cluster that `NewClusterFromURLsMap` of etcdserver/api/membership/cluster.go makes.
use mathlib.Core.List.{Perm, Permᴰ}
use mathlib.Core.List.Permᴰ
use mathlib.Core.Logic.{∥∥₁_elim}
use native.Mathlib.Nat.{ℕ_set}
use etcd_cr.Common.{
  take, member_exists, none_member, ℕ, ◌≡◌, refl, sym, ap, ap₂, ◌∙◌, Bool, true, false, Option,
  none, some, List, [], ◌∷◌, ◌++◌, map, append_assoc, append-nil, arith, ◌==◌, if◌then◌else◌,
  Result, ok, err, bind_ok, ok_injective,
}
use etcd_cr.Common.Maps.{lookup, insert}
use etcd_cr.Quorum.{insert_sorted, sort_ids}
use etcd_cr.Membership.{
  big_endian, put_uint64, concat, Bytes, Member, RaftCluster, new_member, member_id, member_ids,
  values, gen_id, add_members, new_cluster, new_cluster_from_urls_map,
}

insert-absent {ℓ} :
    {V : Type ℓ} (id : ℕ) (a : V) (m : List (ℕ × V))
    → lookup id m ≡ none
    → insert id a m ≡ m ++ (id, a) ∷ []
insert-absent id a [] n = refl
insert-absent id a ((i, b) ∷ m) n = at_entry (i == id) (insert-absent id a m) n
  where
    at_entry :
        (same : Bool)
        → (lookup id m ≡ none → insert id a m ≡ m ++ (id, a) ∷ [])
        → (if same then some b else lookup id m) ≡ none
        → (if same then (i, a) ∷ m else (i, b) ∷ insert id a m) ≡ (i, b) ∷ (m ++ (id, a) ∷ [])
    at_entry true go h = cc
    at_entry false go h = ap (λ m. (i, b) ∷ m) (go h)

insert_sorted-commute :
    (a b : ℕ) (xs : List ℕ)
    → insert_sorted a (insert_sorted b xs) ≡ insert_sorted b (insert_sorted a xs)
insert_sorted-commute a b [] = ground arith
insert_sorted-commute a b (x ∷ xs) = ground (arith, insert_sorted-commute a b xs)

sort_ids-perm : {xs ys : List ℕ} → Permᴰ xs ys → sort_ids xs ≡ sort_ids ys
unfolding sort_ids
sort_ids-perm Permᴰ.nil = refl
sort_ids-perm (Permᴰ.cons e p) = ap₂ insert_sorted e (sort_ids-perm p)
sort_ids-perm (Permᴰ.swap {a} {b} {a'} {b'} {l} e f) =
    insert_sorted-commute a b (sort_ids l)
    ∙ ap₂ (λ x y. insert_sorted x (insert_sorted y (sort_ids l))) f e
sort_ids-perm (Permᴰ.trans p q) = sort_ids-perm p ∙ sort_ids-perm q

module _ (sha1 : Bytes → Bytes) (token : Bytes) where
  -- The member of one entry.
  unfoldable pub entry : Bytes × List Bytes → ℕ × Member
  entry e = let m = new_member sha1 e.0 e.1 token none false in (m.id, m)

  -- A member that passes both tests goes on.
  pub added :
      (waiting : Option Member) (zero_id : Bool) (id : ℕ) (rest : Result (List (ℕ × Member)))
      (out : List (ℕ × Member))
      → elim waiting [
        | some _ ↦ err (member_exists id)
        | none ↦ elim zero_id [ true ↦ err none_member | false ↦ rest ]
      ]
        ≡ ok out
      → (waiting ≡ none) × (zero_id ≡ false) × (rest ≡ ok out)
  added (some _) zero_id id rest out h = cc
  added none true id rest out h = cc
  added none false id rest out h = (refl, refl, h)

  pub add_members-map :
      (urlsmap : List (Bytes × List Bytes)) (ms out : List (ℕ × Member))
      → add_members sha1 token urlsmap ms ≡ ok out
      → out ≡ ms ++ map entry urlsmap
  unfolding add_members entry
  add_members-map [] ms out h = sym (ok_injective h) ∙ sym (append-nil ms)
  add_members-map ((name, urls) ∷ rest) ms out h =
      let m = new_member sha1 name urls token none false in
      let (free, nonzero, went) =
        added (lookup m.id ms) (m.id == 0) m.id (add_members sha1 token rest (insert m.id m ms)) out
          h in
      add_members-map rest (insert m.id m ms) out went
      ∙ ap (λ l. l ++ map entry rest) (insert-absent m.id m ms free)
      ∙ append_assoc ms ((m.id, m) ∷ []) (map entry rest)

  -- The id of the member that an entry names.
  abbrev pub id_of : Bytes × List Bytes → ℕ
  id_of e = (new_member sha1 e.0 e.1 token none false).id

  pub ids_of-entries :
      (urlsmap : List (Bytes × List Bytes))
      → map member_id (values (map entry urlsmap)) ≡ map id_of urlsmap
  unfolding entry
  ids_of-entries [] = refl
  ids_of-entries (e ∷ rest) = ap (◌∷◌ (id_of e)) (ids_of-entries rest)

  cid-eq :
      (logs : Bool) (urlsmap : List (Bytes × List Bytes)) (c : RaftCluster)
      → new_cluster_from_urls_map sha1 logs token urlsmap ≡ ok c
      → c.cid ≡ big_endian (take 8 (sha1 (concat (map put_uint64 (sort_ids (map id_of urlsmap))))))
  unfolding new_cluster_from_urls_map new_cluster gen_id member_ids
  cid-eq logs urlsmap c h =
      let (ms, run, done) =
        bind_ok (add_members sha1 token urlsmap [])
          (λ members. ok (gen_id sha1 (record (new_cluster logs token) { members = members }))) c
          h in
      ap (λ c. c.cid) (sym (ok_injective done))
      ∙ ap (λ ids. big_endian (take 8 (sha1 (concat (map put_uint64 (sort_ids ids))))))
          (ap (λ l. map member_id (values l)) (add_members-map urlsmap [] ms run)
            ∙ ids_of-entries urlsmap)

  -- The id of a new cluster depends on its token and on its entries of names and URLs, and not on
  -- the order in which `range` visits the map.
  pub cid-perm :
      (logs : Bool) (urlsmap urlsmap' : List (Bytes × List Bytes)) (c c' : RaftCluster)
      → Perm urlsmap urlsmap'
      → new_cluster_from_urls_map sha1 logs token urlsmap ≡ ok c
      → new_cluster_from_urls_map sha1 logs token urlsmap' ≡ ok c'
      → c.cid ≡ c'.cid
  cid-perm logs urlsmap urlsmap' c c' p h h' = ∥∥₁_elim p (ℕ_set _ _) (λ q.
      cid-eq logs urlsmap c h
      ∙ ap (λ ids. big_endian (take 8 (sha1 (concat (map put_uint64 ids)))))
          (sort_ids-perm (Permᴰ.map id_of q))
      ∙ sym (cid-eq logs urlsmap' c' h'))
