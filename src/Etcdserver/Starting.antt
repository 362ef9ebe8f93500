-- ===== src/Etcdserver/Starting.antt =====
-- `startNode` of etcdserver/raft.go, and the case of `NewServer` in etcdserver/server.go for a new
-- cluster. Of the write-ahead log that `startNode` makes, only whether it can be made counts.
use etcd_cr.Common.{
  ℕ, ◌*◌, Bool, true, false, Option, none, some, List, [], ◌∷◌, if◌then◌else◌, Result, ok, err,
  panic, ◌>>=◌, ◌>>◌, or_panic, assert, not, ◌||◌, no_local_member,
}
use etcd_cr.Storage.{MemoryStorage, new_memory_storage, memory_storage}
use etcd_cr.Raft.{StartConfig, Rand, read_only_safe}
use etcd_cr.RawNode.{Peer}
use etcd_cr.Node.{Node, start_node}
use etcd_cr.Membership.{
  Bytes, Member, RaftCluster, has_name, member, member_ids, member_by_name,
  new_cluster_from_urls_map,
}

-- The fields of `ServerConfig` that a start reads; of the logger, its configuration, and its core with
-- the write syncer, whether they are set. No name of the map has a nil slice of URLs.
pub record ServerConfig : Type 0 where
  pub name : Bytes
  pub initial_cluster_token : Bytes
  pub initial_peer_urls_map : List (Bytes × List Bytes)
  pub election_ticks : ℕ
  pub pre_vote : Bool
  pub logger : Bool
  pub logger_config : Bool
  pub logger_core : Bool

-- The `raft.Config` of `startNode`.
abbrev pub raft_config : ServerConfig → ℕ → StartConfig MemoryStorage
raft_config cfg id = record {
  id = id;
  peers = [];
  learners = [];
  election_tick = cfg.election_ticks;
  heartbeat_tick = 1;
  storage = new_memory_storage;
  applied = 0;
  max_size_per_msg = 1 * 1024 * 1024;
  max_committed_size_per_ready = 0;
  max_uncommitted_entries_size = 0;
  max_inflight_msgs = 512;
  check_quorum = true;
  pre_vote = cfg.pre_vote;
  read_only_option = read_only_safe;
  disable_proposal_forwarding = false;
}

-- `VerifyBootstrap`
unfoldable pub verify_bootstrap : ServerConfig → Result (Unit {0})
verify_bootstrap cfg =
    if has_name cfg.name cfg.initial_peer_urls_map then ok tt else err no_local_member

module _ (marshal_json : Option Member → Option Bytes) (logger : Bool) where
  -- The context of a peer: without a logger, an error leaves it nil.
  unfoldable pub context_of : Option Member → Result (Option Bytes)
  context_of m = elim (marshal_json m) [
    | some b ↦ ok (some b)
    | none ↦ if logger then panic else ok none
  ]

  -- The peers of `startNode`.
  unfoldable pub peers_of : RaftCluster → List ℕ → Result (List Peer)
  peers_of cl [] = ok []
  peers_of cl (id ∷ ids) = do
    context ← context_of (member cl id)
    peers ← peers_of cl ids
    ok (record { id = id; context = context } ∷ peers)

-- Whether `raft.Config.Logger` is set; `log.Fatalf` ends the program, as a panic does.
unfoldable pub raft_logger : (raft_logger_built : Bool) → ServerConfig → Result Bool
raft_logger raft_logger_built cfg =
    if cfg.logger
    then (if cfg.logger_config
        then (if raft_logger_built then ok true else panic)
        else ok cfg.logger_core)
    else ok false

module _ {G : Type 0} ⦃rng : Rand G⦄ where
  -- The end of `startNode`. A raft node without a logger panics at the log line of
  -- `becomeFollower`.
  unfoldable pub start_peers :
      (has_logger : Bool)
      → StartConfig MemoryStorage
      → G
      → List Peer
      → Result (Option (Node MemoryStorage G))
  start_peers has_logger c g [] = ok none
  start_peers false c g (p ∷ ps) = panic
  start_peers true c g (p ∷ ps) = start_node c g (p ∷ ps) >>= λ n. ok (some n)

  -- Whether `wal.Create` and `logutil.NewRaftLogger` succeed, and what `json.Marshal` gives.
  module _ (wal_created raft_logger_built : Bool)
      (marshal_json : Option Member → Option Bytes) where
    -- `startNode`: the id of the local member, and the node, if there are peers. A local member that
    -- the cluster does not have panics.
    unfoldable pub start_cluster_node :
        ServerConfig → RaftCluster → List ℕ → G → Result (ℕ × Option (Node MemoryStorage G))
    start_cluster_node cfg cl ids g = do
      found ← member_by_name cl cfg.name
      assert (wal_created || not cfg.logger)
      peers ← peers_of marshal_json cfg.logger cl ids
      m ← or_panic found
      has_logger ← raft_logger raft_logger_built cfg
      n ← start_peers has_logger (raft_config cfg m.id) g peers
      ok (m.id, n)

    -- `NewServer` without a write-ahead log, for a new cluster. `isMemberBootstrapped` is false: what
    -- it asks other members always gives an error.
    unfoldable pub new_cluster_node :
        (Bytes → Bytes) → ServerConfig → G → Result (ℕ × Option (Node MemoryStorage G))
    new_cluster_node sha1 cfg g = do
      verify_bootstrap cfg
      cl ←
          new_cluster_from_urls_map sha1 cfg.logger cfg.initial_cluster_token
            cfg.initial_peer_urls_map
      _ ← member_by_name cl cfg.name
      start_cluster_node cfg cl (member_ids cl) g
