-- ===== src/Etcdserver/Started.antt =====
-- A new cluster, from the names and URLs of its members to the raft node of the local one:
-- etcdserver/server.go, etcdserver/raft.go, etcdserver/api/membership and raft.
use etcd_cr.Common.{
  ℕ, suc, ◌+◌, ◌<◌, ◌≡◌, ◌≢◌, refl, some, List, [], ◌∷◌, arith, lt→ltb, length, ok, u64_mod, add64,
  sub64, ne→==_false,
}
use etcd_cr.Common.Maps.{has}
use etcd_cr.Storage
use etcd_cr.Storage.{MemoryStorage, new_memory_storage, memory_storage, zero_entry}
use etcd_cr.Storage.Laws.{memory_storage_laws}
use etcd_cr.RaftLog.{RaftLog, new_log_with_size, last_index, last_term, term, first_index}
use etcd_cr.RaftLog.View.{IsValid, view}
use etcd_cr.RaftLog.Persist.{log_of}
use etcd_cr.Unstable.{maybe_first_index, maybe_last_index, maybe_term}
use etcd_cr.Confchange.Adding.{plain, AllTracked}
use etcd_cr.Tracker.{make_progress_tracker, reset_votes}
use etcd_cr.Raft.{
  Raft, Rand, state_follower, step_follower, tick_by_election, soft_state, hard_state, validate,
  load_state, abort_leader_transfer,
}
use etcd_cr.Raft.Roles.{become_follower, reset, reset_progress, reset_randomized_election_timeout}
use etcd_cr.Raft.Step.{new_raft, initial_raft}
use etcd_cr.Raft.Resets.{reset_to}
use etcd_cr.RawNode.{RawNode, Peer, bootstrap_entries, new_raw_node}
use etcd_cr.RawNode.Joining.{is_peer, NonZero}
use etcd_cr.RawNode.Bootstrapped.{bootstrap-voters}
use etcd_cr.Node.{Node, new_node, start_node}
use etcd_cr.Etcdserver.Starting.{ServerConfig, raft_config}

-- The log of a new node.
abbrev pub new_node_log : RaftLog MemoryStorage
new_node_log = log_of new_memory_storage [] 1 0 0 0

new_node_log-IsValid : IsValid memory_storage_laws new_node_log
unfolding new_memory_storage
new_node_log-IsValid = record {
  stored = record {
    dummy = zero_entry;
    log = [];
    shape = refl;
    consecutive = tt;
    bounded = omega arith;
    small = omega arith;
  };
  unstable_valid = record { consecutive = tt; bounded = omega arith; below = tt };
  joined = (omega arith, omega arith);
  settled = refl;
  start_le = omega arith;
  applied_le = omega arith;
  committed_lt = omega arith;
}

last_of_nothing : memory_storage.last_index new_memory_storage ≡ ok 0
unfolding Storage.last_index new_memory_storage add64 sub64
last_of_nothing = refl

module _ {G : Type 0} ⦃rng : Rand G⦄ (cfg : ServerConfig) (id : ℕ) (g : G) where
  abbrev pub first_raft : Raft MemoryStorage G
  first_raft =
      record (reset_to
        (record (initial_raft (raft_config cfg id) new_node_log g) { step = some step_follower }) 0
        []) { tick = some tick_by_election; lead = 0; state = state_follower }

  new_raft-first : id ≢ 0 → 0 < cfg.election_ticks → new_raft (raft_config cfg id) g ≡ ok first_raft
  unfolding new_raft validate new_log_with_size load_state become_follower reset reset_progress
      reset_randomized_election_timeout last_index last_term term first_index maybe_first_index
      maybe_last_index maybe_term abort_leader_transfer reset_votes make_progress_tracker
      Storage.first_index Storage.last_index Storage.term Storage.initial_state add64 sub64
      new_memory_storage
  new_raft-first n t = rw (ne→==_false id 0 n, lt→ltb 0 cfg.election_ticks t) refl

  module _ (p : Peer) (ps : List Peer) (named : NonZero (p ∷ ps))
      (fits : length (p ∷ ps) + 2 < u64_mod) (n : id ≢ 0) (t : 0 < cfg.election_ticks) where
    abbrev first_node : RawNode MemoryStorage G
    first_node = record {
      raft = first_raft;
      prev_soft_st = soft_state first_raft;
      prev_hard_st = hard_state first_raft;
    }

    new_raw_node-first : new_raw_node (raft_config cfg id) g ≡ ok first_node
    unfolding new_raw_node
    new_raw_node-first = rw (ne→==_false id 0 n, new_raft-first n t) refl

    -- What a started node is: a follower of term 1 without a leader, whose voters are the peers, and
    -- whose log has one committed entry for each.
    pub record IsStarted (nd : Node MemoryStorage G) : Type 0 where
      pub term : nd.rn.raft.term ≡ 1
      pub follower : nd.rn.raft.state ≡ state_follower
      pub log :
          (v : IsValid memory_storage_laws nd.rn.raft.raft_log) × (view memory_storage_laws
              nd.rn.raft.raft_log v
            ≡ bootstrap_entries 1 (p ∷ ps))
          × (nd.rn.raft.raft_log.committed ≡ length (p ∷ ps))
      pub voters :
          (xs : List ℕ) × (nd.rn.raft.prs.config ≡ plain xs)
          × AllTracked xs nd.rn.raft.prs.progress
          × ((j : ℕ) → has j xs ≡ is_peer j (p ∷ ps))

    pub start_node-IsStarted :
        (nd : Node MemoryStorage G) × (start_node (raft_config cfg id) g (p ∷ ps) ≡ ok nd)
        × IsStarted nd
    unfolding start_node new_node make_progress_tracker
    start_node-IsStarted =
        let last : memory_storage.last_index new_memory_storage ≡ ok 0 = last_of_nothing in
        let (rn', xs, boots, terms, states, (v', entries, zero, comm), conf, all, who) =
          bootstrap-voters memory_storage_laws first_node new_node_log-IsValid refl last t refl refl
            p ps named fits in
        (
          new_node rn',
          rw
              (
                ne→==_false (suc (length ps)) 0 (λ e. omega arith),
                start_node,
                new_raw_node-first,
                boots,
              )
              refl,
          record {
            term = terms;
            follower = states;
            log = (v', entries, comm);
            voters = (xs, conf, all, who);
          },
        )
