-- ===== src/Tests/Starts.antt =====
-- A first start with the peers 1, 2 and 3, on an empty storage.
use etcd_cr.Common.{add64, sub64, ℕ, ◌≡◌, refl, none, List, [], ◌∷◌, arith, ok}
use etcd_cr.Common.Maps.{has}
use etcd_cr.Raftpb.{zero_snapshot}
use etcd_cr.Storage.{MemoryStorage, memory_storage, zero_entry, last_index}
use etcd_cr.Storage.Laws.{memory_storage_laws}
use etcd_cr.RaftLog.{RaftLog}
use etcd_cr.RaftLog.View.{IsValid, start, view}
use etcd_cr.RaftLog.Persist.{log_of}
use etcd_cr.Confchange.Adding.{plain, AllTracked}
use etcd_cr.Raft.{state_follower}
use etcd_cr.RawNode.{RawNode, Peer, bootstrap, bootstrap_entries}
use etcd_cr.RawNode.Joining.{is_peer, NonZero}
use etcd_cr.RawNode.Bootstrapped.{bootstrap-voters}
use etcd_cr.Tests.Nodes.{node, counting}

abbrev nothing_stored : MemoryStorage
nothing_stored = record {
  hard_state = record { term = 0; vote = 0; commit = 0 };
  snapshot = zero_snapshot;
  ents = zero_entry ∷ [];
}

abbrev empty_log : RaftLog MemoryStorage
empty_log = log_of nothing_stored [] 1 0 0 100

abbrev empty_log-IsValid : IsValid memory_storage_laws empty_log
empty_log-IsValid = record {
  stored = record {
    dummy = zero_entry;
    log = [];
    shape = refl;
    consecutive = tt;
    bounded = omega arith;
    small = omega arith;
  };
  unstable_valid = record { consecutive = tt; bounded = omega arith; below = tt };
  joined = (omega arith, omega arith);
  settled = refl;
  start_le = omega arith;
  applied_le = omega arith;
  committed_lt = omega arith;
}

abbrev new_node : RawNode MemoryStorage ℕ
new_node = record {
  raft = record node {
    raft_log = empty_log;
    prs = record { config = plain []; progress = []; votes = []; max_inflight = 256 };
  };
  prev_soft_st = record { lead = 0; raft_state = state_follower };
  prev_hard_st = record { term = 0; vote = 0; commit = 0 };
}

abbrev peers : List Peer
peers =
    record { id = 1; context = none }
    ∷ record { id = 2; context = none }
    ∷ record { id = 3; context = none }
    ∷ []

named : NonZero peers
named =
    ((λ h. absurd (omega arith)), ((λ h. absurd (omega arith)), ((λ h. absurd (omega arith)), tt)))

last_of_nothing : memory_storage.last_index nothing_stored ≡ ok 0
unfolding last_index add64 sub64
last_of_nothing = refl

bootstrap-voters_example :
    (rn' : RawNode MemoryStorage ℕ) × (xs : List ℕ) × (bootstrap new_node peers ≡ ok rn')
    × (rn'.raft.term ≡ 1)
    × (rn'.raft.state ≡ state_follower)
    × ((v' : IsValid memory_storage_laws rn'.raft.raft_log) × (view memory_storage_laws
            rn'.raft.raft_log v'
          ≡ bootstrap_entries 1 peers)
        × ((start memory_storage_laws rn'.raft.raft_log v').index ≡ 0)
        × (rn'.raft.raft_log.committed ≡ 3))
    × (rn'.raft.prs.config ≡ plain xs)
    × AllTracked xs rn'.raft.prs.progress
    × ((j : ℕ) → has j xs ≡ is_peer j peers)
bootstrap-voters_example =
    bootstrap-voters memory_storage_laws new_node empty_log-IsValid refl last_of_nothing
      (omega arith) refl refl (record { id = 1; context = none })
      (record { id = 2; context = none } ∷ record { id = 3; context = none } ∷ []) named
      (omega arith)
