-- ===== src/Tests/Nodes.antt =====
-- A node that is peer 1 of three, with the log of `Tests.Logs`, and a generator that counts.
use etcd_cr.Common.{ℕ, ◌+◌, ◌%◌, ◌≤◌, ◌≡◌, refl, false, some, [], ◌∷◌, arith, ok, add64, sub64}
use etcd_cr.Util.{limit_size}
use etcd_cr.Storage
use etcd_cr.Storage.{MemoryStorage, memory_storage}
use etcd_cr.Storage.Laws.{memory_storage_laws}
use etcd_cr.Tracker.{make_progress_tracker, reset_votes}
use etcd_cr.RaftLog.{RaftLog, last_index, last_term, term, new_log_with_size, first_index}
use etcd_cr.RaftLog.Persist.{log_of}
use etcd_cr.Unstable.{maybe_first_index, maybe_last_index, maybe_term}
use etcd_cr.RaftLog.View.{last_index-eq}
use etcd_cr.Raft.{
  Raft, Rand, StartConfig, state_follower, read_only_safe, new_read_only, step_follower,
  tick_by_election, validate, promotable, is_leader, load_state, abort_leader_transfer,
}
use etcd_cr.Raft.Roles.{become_follower, reset, reset_progress, reset_randomized_election_timeout}
use etcd_cr.Raft.Step.{tick_election, new_raft, initial_raft}
use etcd_cr.Raft.Resets.{fresh_all, reset_to}
use etcd_cr.Raft.Campaigns.{voted_to, tick_election-cases}
use etcd_cr.Raft.History.{Run, Move, OwnVote, run-OwnVote}
use etcd_cr.Raft.Starts.{new_raft-forgets}
use etcd_cr.RawNode.{RawNode, Ready, ready_without_accept, has_ready}
use etcd_cr.RawNode.Readiness.{has_content, has_ready-eq}
use etcd_cr.Tests.{entry}
use etcd_cr.Tests.Stored.{three_stored}
use etcd_cr.Tests.Logs.{mixed, mixed-IsValid}
use etcd_cr.Tests.Votes.{three_peers}

instance pub counting : Rand ℕ
counting = record { intn = λ n g. (g % n, g + 1) }

abbrev pub node : Raft MemoryStorage ℕ
node = record {
  id = 1;
  term = 3;
  vote = 0;
  read_states = [];
  raft_log = mixed;
  max_msg_size = 1000;
  max_uncommitted_size = 0;
  prs = three_peers [];
  state = state_follower;
  is_learner = false;
  msgs = [];
  lead = 0;
  lead_transferee = 0;
  pending_conf_index = 0;
  uncommitted_size = 0;
  read_only = new_read_only read_only_safe;
  election_elapsed = 12;
  heartbeat_elapsed = 0;
  check_quorum = false;
  pre_vote = false;
  heartbeat_timeout = 1;
  election_timeout = 10;
  randomized_election_timeout = 13;
  disable_proposal_forwarding = false;
  tick = some tick_by_election;
  step = some step_follower;
  rand = 4;
}

-- The node after it has campaigned.
abbrev candidate : Raft MemoryStorage ℕ
candidate = voted_to node (fresh_all 1 256 9 (three_peers []).progress)

pub last_is_nine : last_index mixed ≡ ok 9
last_is_nine = last_index-eq memory_storage_laws mixed mixed-IsValid

tick_election-cases_example : tick_election node ≡ ok candidate
unfolding promotable is_leader
tick_election-cases_example = tick_election-cases node 9 last_is_nine (omega arith)

campaigned : tick_election node ≡ ok candidate
unfolding promotable is_leader
campaigned = tick_election-cases node 9 last_is_nine (omega arith)

one_tick : Run node 1 candidate
one_tick = Run.then_move 0 node candidate Run.start (Move.ticked candidate campaigned)

run-OwnVote_example :
    ((candidate.id ≡ node.id)
      × (node.term ≤ candidate.term)
      × (candidate.term ≤ node.term + 1)
      × (candidate.term ≡ node.term → candidate.vote ≡ node.vote))
    × (OwnVote node → OwnVote candidate)
run-OwnVote_example = run-OwnVote node candidate 1 one_tick (omega arith)

abbrev config : StartConfig MemoryStorage
config = record {
  id = 1;
  peers = [];
  learners = [];
  election_tick = 10;
  heartbeat_tick = 1;
  storage = three_stored;
  applied = 0;
  max_size_per_msg = 1000;
  max_committed_size_per_ready = 100;
  max_uncommitted_entries_size = 0;
  max_inflight_msgs = 256;
  check_quorum = false;
  pre_vote = false;
  read_only_option = read_only_safe;
  disable_proposal_forwarding = false;
}

abbrev first_log : RaftLog MemoryStorage
first_log = log_of three_stored [] 9 5 5 100

abbrev started : Raft MemoryStorage ℕ
started =
    record (reset_to (record (initial_raft config first_log 4) { step = some step_follower }) 0
      []) { tick = some tick_by_election; lead = 0; state = state_follower }

starts : new_raft config 4 ≡ ok started
unfolding new_raft validate new_log_with_size load_state become_follower reset reset_progress
    reset_randomized_election_timeout last_index last_term term first_index maybe_first_index
    maybe_last_index maybe_term abort_leader_transfer reset_votes make_progress_tracker
    Storage.first_index Storage.last_index Storage.term Storage.initial_state add64 sub64
starts = refl

new_raft-forgets_example :
    (started.state ≡ state_follower)
    × (started.term ≡ 0)
    × (started.vote ≡ 0)
    × (started.lead ≡ 0)
    × (started.prs ≡ make_progress_tracker 256)
    × (new_log_with_size three_stored 100 ≡ ok first_log)
    × ((first : ℕ) × (memory_storage.first_index three_stored ≡ ok first)
        × (started.raft_log.committed ≡ sub64 first 1)
        × (started.raft_log.applied ≡ sub64 first 1))
    × OwnVote started
new_raft-forgets_example = new_raft-forgets config 4 started starts

abbrev raw : RawNode MemoryStorage ℕ
raw = record {
  raft = candidate;
  prev_soft_st = record { lead = 0; raft_state = state_follower };
  prev_hard_st = record { term = 3; vote = 0; commit = 7 };
}

has_ready-eq_example :
    (rd : Ready) × (ready_without_accept raw ≡ ok rd)
    × (rd.committed_entries ≡ limit_size (entry 7 2 ∷ []) 100)
    × (has_ready raw ≡ ok (has_content rd))
has_ready-eq_example = has_ready-eq memory_storage_laws raw mixed-IsValid
