-- ===== src/Etcdserver/Founding.antt =====
-- The start of a new cluster in etcdserver/server.go, from the names and URLs of the members to the
-- voters of the local raft node.
use etcd_cr.Common.{
  ℕ, suc, ◌+◌, ◌<◌, ◌≡◌, ◌≢◌, refl, sym, ap, ◌∙◌, true, false, ◌||◌, Option, some, List, [], ◌∷◌,
  arith, length, map, Bool, ◌>>=◌, ◌==◌, ok, u64_mod,
}
use etcd_cr.Common.Maps.{has}
use etcd_cr.Storage.{MemoryStorage, memory_storage}
use etcd_cr.Storage.Laws.{memory_storage_laws}
use etcd_cr.RaftLog.View.{IsValid, view}
use etcd_cr.Quorum.Sorting.{IsAscending, sort_ids_lem}
use etcd_cr.Raft.{Rand, state_follower}
use etcd_cr.Confchange.Adding.{plain, AllTracked}
use etcd_cr.RawNode.{Peer, bootstrap_entries}
use etcd_cr.RawNode.Joining.{is_peer, NonZero}
use etcd_cr.Node.{Node}
use etcd_cr.Membership.{
  Bytes, Member, RaftCluster, has_name, member_id, values, member, member_ids, member_by_name,
  new_cluster_from_urls_map,
}
use etcd_cr.Membership.Naming.{DistinctNames, member_by_name-new_cluster}
use etcd_cr.Membership.Founding.{member_by_name-has, new_cluster-ids}
use etcd_cr.Etcdserver.Starting.{
  ServerConfig, raft_config, verify_bootstrap, context_of, peers_of, raft_logger, start_peers,
  start_cluster_node, new_cluster_node,
}
use etcd_cr.Etcdserver.Started.{start_node-IsStarted}

-- The peers of a start, by the ids of members and the text of each member.
abbrev pub member_peers : (Option Member → Bytes) → RaftCluster → List ℕ → List Peer
member_peers json cl [] = []
member_peers json cl (id ∷ ids) =
    record { id = id; context = some (json (member cl id)) } ∷ member_peers json cl ids

-- The raft node of a new cluster: a follower of term 1 whose voters are just the given members. Its
-- log is valid, and has the entries that add the given peers, one for each in turn, and nothing
-- else; all of them are committed.
pub record IsFounded {G : Type 0} (ids : List ℕ) (peers : List Peer) (nd : Node MemoryStorage G)
    : Type 0 where
  pub term : nd.rn.raft.term ≡ 1
  pub follower : nd.rn.raft.state ≡ state_follower
  pub log :
      (v : IsValid memory_storage_laws nd.rn.raft.raft_log) × (view memory_storage_laws
          nd.rn.raft.raft_log v
        ≡ bootstrap_entries 1 peers)
  pub committed : nd.rn.raft.raft_log.committed ≡ length ids
  pub voters :
      (xs : List ℕ) × (nd.rn.raft.prs.config ≡ plain xs)
      × AllTracked xs nd.rn.raft.prs.progress
      × ((j : ℕ) → has j xs ≡ has j ids)

module _ (json : Option Member → Bytes) (cl : RaftCluster) where
  is_peer-member_peers : (ids : List ℕ) (j : ℕ) → is_peer j (member_peers json cl ids) ≡ has j ids
  is_peer-member_peers [] j = refl
  is_peer-member_peers (id ∷ ids) j = ap (λ b. id == j || b) (is_peer-member_peers ids j)

  length-member_peers : (ids : List ℕ) → length (member_peers json cl ids) ≡ length ids
  length-member_peers [] = refl
  length-member_peers (id ∷ ids) = ap suc (length-member_peers ids)

  NonZero-member_peers : (ids : List ℕ) → has 0 ids ≡ false → NonZero (member_peers json cl ids)
  NonZero-member_peers [] h = tt
  NonZero-member_peers (id ∷ ids) h = ((λ e. ground arith), NonZero-member_peers ids (ground arith))

  module _ (marshal_json : Option Member → Option Bytes) (logger : Bool)
      (marshals : (m : Option Member) → marshal_json m ≡ some (json m)) where
    context_of-marshals :
        (m : Option Member) → context_of marshal_json logger m ≡ ok (some (json m))
    unfolding context_of
    context_of-marshals m = rw (marshals m, context_of) refl

    peers_of-marshals :
        (ids : List ℕ) → peers_of marshal_json logger cl ids ≡ ok (member_peers json cl ids)
    unfolding peers_of
    peers_of-marshals [] = refl
    peers_of-marshals (id ∷ ids) =
        rw (context_of-marshals (member cl id), peers_of-marshals ids, peers_of) refl

  module _ {G : Type 0} ⦃rng : Rand G⦄ (cfg : ServerConfig) (m : Member) (g : G) where
    -- The end of `startNode` with a logger, for the ids of members of which none is 0 and the local
    -- one is one.
    start_peers-IsFounded :
        (ids : List ℕ)
        → has m.id ids ≡ true
        → has 0 ids ≡ false
        → length ids + 2 < u64_mod
        → 0 < cfg.election_ticks
        → (nd : Node MemoryStorage G) × (start_peers true
              (raft_config cfg m.id)
              g
              (member_peers json cl ids)
            ≡ ok (some nd))
          × IsFounded ids (member_peers json cl ids) nd
    unfolding start_peers
    start_peers-IsFounded [] local nonzero few t = cc
    start_peers-IsFounded (id ∷ ids) local nonzero few t =
        let p : Peer = record { id = id; context = some (json (member cl id)) } in
        let ps = member_peers json cl ids in
        let same_length = length-member_peers (id ∷ ids) in
        let not_none : m.id ≢ 0 =
          λ e. let zero_has = sym (ap (λ j. has j (id ∷ ids)) e) ∙ local in cc in
        let (nd, runs, s) =
          start_node-IsStarted cfg m.id g p ps (NonZero-member_peers (id ∷ ids) nonzero)
            (omega (arith, same_length)) not_none t in
        let (xs, conf, all, who) = s.voters in
        (
          nd,
          ap (λ t. t >>= λ n. ok (some n)) runs,
          record {
            term = s.term;
            follower = s.follower;
            log = (s.log.0, s.log.1);
            committed = s.log.2 ∙ same_length;
            voters = (xs, conf, all, λ j. who j ∙ is_peer-member_peers (id ∷ ids) j);
          },
        )

member_ids-IsAscending : (c : RaftCluster) → IsAscending (member_ids c)
unfolding member_ids
member_ids-IsAscending c = (sort_ids_lem (map member_id (values c.members))).0

-- A server of a new cluster whose write-ahead log can be made and whose raft logger is set. The map
-- of names and URLs has the local name, has no name twice, and makes a cluster, with fewer than
-- 2^64 - 2 members; the number of election ticks is positive, and `json.Marshal` fails on no member.
-- Then `MemberByName` finds a member of the local name, and `NewServer` gets, under its id, a running
-- raft node: a follower of term 1 whose voters are just the members of the cluster, and whose log has
-- just one entry for each, in ascending order of the ids, which adds it, all of them committed.
pub new_cluster_node-IsFounded :
    {G : Type 0} ⦃rng : Rand G⦄ (raft_logger_built : Bool)
    (marshal_json : Option Member → Option Bytes) (json : Option Member → Bytes)
    (sha1 : Bytes → Bytes) (cfg : ServerConfig) (cl : RaftCluster) (g : G)
    → raft_logger raft_logger_built cfg ≡ ok true
    → ((m : Option Member) → marshal_json m ≡ some (json m))
    → has_name cfg.name cfg.initial_peer_urls_map ≡ true
    → DistinctNames cfg.initial_peer_urls_map
    → new_cluster_from_urls_map sha1 cfg.logger cfg.initial_cluster_token cfg.initial_peer_urls_map
      ≡ ok cl
    → length cfg.initial_peer_urls_map + 2 < u64_mod
    → 0 < cfg.election_ticks
    → (m : Member) × (nd : Node MemoryStorage G) × (member_by_name cl cfg.name ≡ ok (some m))
      × (m.name ≡ cfg.name)
      × (new_cluster_node true raft_logger_built marshal_json sha1 cfg g ≡ ok (m.id, some nd))
      × IsAscending (member_ids cl)
      × IsFounded (member_ids cl) (member_peers json cl (member_ids cl)) nd
unfolding new_cluster_node verify_bootstrap start_cluster_node
new_cluster_node-IsFounded built marshal_json json sha1 cfg cl g logs marshals named distinct made
      few t =
    let (count, nonzero) =
      new_cluster-ids sha1 cfg.initial_cluster_token cfg.logger cfg.initial_peer_urls_map cl made in
    let (m, found, same_name) =
      member_by_name-new_cluster sha1 cfg.initial_cluster_token cfg.logger cfg.name
        cfg.initial_peer_urls_map cl made distinct named in
    let (nd, runs, founded) =
      start_peers-IsFounded json cl cfg m g (member_ids cl) (member_by_name-has cl cfg.name m found)
        nonzero (omega (arith, count)) t in
    (
      m,
      nd,
      found,
      same_name,
      rw
          (
            named,
            made,
            found,
            peers_of-marshals json cl marshal_json cfg.logger marshals (member_ids cl),
            logs,
            runs,
          )
          refl,
      member_ids-IsAscending cl,
      founded,
    )
