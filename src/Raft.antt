-- ===== src/Raft.antt =====
-- raft/raft.go and raft/read_only.go: the state of a raft node, its role changes, elections and
-- membership changes. The functions that `tick` and `step` point to are named by data types, log
-- lines are left out, and the Go `int` counters are natural numbers.
pub mod Roles
pub mod Step
pub mod Resets
pub mod Campaigns
pub mod History
pub mod Elections
pub mod Starts
use etcd_cr.Common.{
  ℕ, ◌+◌, Bool, true, false, ◌&&◌, ◌||◌, not, Option, none, some, List, [], ◌∷◌, ltb, leb, ◌==◌,
  if◌then◌else◌, length, add64, Result, ok, err, panic, ◌>>=◌, ◌>>◌, assert, must, none_as_id,
}
use etcd_cr.Common.Maps.{lookup}
use etcd_cr.Raftpb.{
  Entry, EntryType, Message, HardState, ConfState, ConfChangeV2, MessageType, msg_hup, msg_vote,
  entry_conf_change, zero_snapshot,
}
use etcd_cr.Util.{vote_resp_msg_type}
use etcd_cr.Quorum.{VoteResult}
use etcd_cr.Tracker.{
  ProgressTracker, Progress, ProgressMap, Config, make_progress_tracker, new_inflights, reset_votes,
  record_vote, tally_votes, state_probe,
}
use etcd_cr.Confchange.{simple}
use etcd_cr.Storage.{Storage}
use etcd_cr.RaftLog.{RaftLog, new_log_with_size, last_index, last_term}

pub data StateType : Type 0 where
  state_follower state_candidate state_leader state_pre_candidate : StateType

pub data ReadOnlyOption : Type 0 where
  read_only_safe read_only_lease_based : ReadOnlyOption

pub data CampaignType : Type 0 where
  campaign_pre_election campaign_election campaign_transfer : CampaignType

-- The functions that `tick` and `step` are set to.
pub data TickFunc : Type 0 where
  tick_by_election : TickFunc

pub data StepFunc : Type 0 where
  step_follower step_candidate : StepFunc

pub record ReadState : Type 0 where
  pub index : ℕ
  pub request_ctx : Option (List ℕ)

pub record ReadIndexStatus : Type 0 where
  pub req : Message
  pub index : ℕ
  pub acks : List (ℕ × Bool)

-- `readOnly`; its map is keyed by strings, the bytes of the request context.
pub record ReadOnly : Type 0 where
  pub option : ReadOnlyOption
  pub pending_read_index : List (List ℕ × ReadIndexStatus)
  pub read_index_queue : List (List ℕ)

-- `newReadOnly`
abbrev pub new_read_only : ReadOnlyOption → ReadOnly
new_read_only option = record { option = option; pending_read_index = []; read_index_queue = [] }

-- The generator behind `globalRand`: `intn n` draws a number below `n`, where `n` is positive.
pub record Rand (G : Type 0) : Type 0 where
  pub intn : ℕ → G → ℕ × G

-- `Config`, the configuration that a node starts with.
pub record StartConfig (S : Type 0) : Type 0 where
  pub id : ℕ
  pub peers : List ℕ
  pub learners : List ℕ
  pub election_tick : ℕ
  pub heartbeat_tick : ℕ
  pub storage : S
  pub applied : ℕ
  pub max_size_per_msg : ℕ
  pub max_committed_size_per_ready : ℕ
  pub max_uncommitted_entries_size : ℕ
  pub max_inflight_msgs : ℕ
  pub check_quorum : Bool
  pub pre_vote : Bool
  pub read_only_option : ReadOnlyOption
  pub disable_proposal_forwarding : Bool

-- `raft`, with the state of the global generator in `rand`. `None` is the id 0.
pub record Raft (S G : Type 0) : Type 0 where
  pub id : ℕ
  pub term : ℕ
  pub vote : ℕ
  pub read_states : List ReadState
  pub raft_log : RaftLog S
  pub max_msg_size : ℕ
  pub max_uncommitted_size : ℕ
  pub prs : ProgressTracker
  pub state : StateType
  pub is_learner : Bool
  pub msgs : List Message
  pub lead : ℕ
  pub lead_transferee : ℕ
  pub pending_conf_index : ℕ
  pub uncommitted_size : ℕ
  pub read_only : ReadOnly
  pub election_elapsed : ℕ
  pub heartbeat_elapsed : ℕ
  pub check_quorum : Bool
  pub pre_vote : Bool
  pub heartbeat_timeout : ℕ
  pub election_timeout : ℕ
  pub randomized_election_timeout : ℕ
  pub disable_proposal_forwarding : Bool
  pub tick : Option TickFunc
  pub step : Option StepFunc
  pub rand : G

pub record SoftState : Type 0 where
  pub lead : ℕ
  pub raft_state : StateType

-- `numOfPendingConf`
abbrev pub is_conf_change : EntryType → Bool
is_conf_change entry_conf_change = true
is_conf_change _ = false

unfoldable pub num_of_pending_conf : List Entry → ℕ
num_of_pending_conf [] = 0
num_of_pending_conf (e ∷ es) = (if is_conf_change e.type then 1 else 0) + num_of_pending_conf es

-- `(*Config).validate`
unfoldable pub validate : {S : Type 0} → StartConfig S → Result (Unit {0})
validate c = if c.id == 0 then err none_as_id else ok tt

abbrev is_promotable : Option Progress → Bool
is_promotable none = false
is_promotable (some pr) = not pr.is_learner

unfoldable pub is_leader : StateType → Bool
is_leader state_leader = true
is_leader _ = false

abbrev pub is_learner_in : Option Progress → Bool
is_learner_in none = false
is_learner_in (some pr) = pr.is_learner

abbrev pub is_some {ℓ} : {A : Type ℓ} → Option A → Bool
is_some none = false
is_some (some _) = true

module _ {S G : Type 0} where
  -- `hasLeader`
  unfoldable pub has_leader : Raft S G → Bool
  has_leader r = not (r.lead == 0)

  -- `softState`
  unfoldable pub soft_state : Raft S G → SoftState
  soft_state r = record { lead = r.lead; raft_state = r.state }

  -- `hardState`
  unfoldable pub hard_state : Raft S G → HardState
  hard_state r = record { term = r.term; vote = r.vote; commit = r.raft_log.committed }

  -- `promotable`
  unfoldable pub promotable : Raft S G → Bool
  promotable r = is_promotable (lookup r.id r.prs.progress)

  -- `pastElectionTimeout`
  unfoldable pub past_election_timeout : Raft S G → Bool
  past_election_timeout r = leb r.randomized_election_timeout r.election_elapsed

  -- `abortLeaderTransfer`
  unfoldable pub abort_leader_transfer : Raft S G → Raft S G
  abort_leader_transfer r = record r { lead_transferee = 0 }

  -- `poll`: the votes granted and rejected, the result, and the node with the vote recorded.
  unfoldable pub poll : Raft S G → ℕ → Bool → (ℕ × ℕ × VoteResult) × Raft S G
  poll r id v = let prs' = record_vote r.prs id v in (tally_votes prs', record r { prs = prs' })

  -- `loadState` prints the vote and the term: what would restore them is commented out.
  unfoldable pub load_state : Raft S G → HardState → Raft S G
  load_state r st = r

  -- `switchToConfig`: of its branches, only the last changes the node further.
  unfoldable pub switch_to_config : Raft S G → Config → ProgressMap → ConfState × Raft S G
  switch_to_config r cfg prs =
      let prs' : ProgressTracker = record r.prs { config = cfg; progress = prs } in
      let cs = etcd_cr.Tracker.conf_state prs' in
      let mine = lookup r.id prs in
      let r' : Raft S G = record r { prs = prs'; is_learner = is_learner_in mine } in
      (
        cs,
        if (not (is_some mine) || is_learner_in mine) && is_leader r.state
            then r'
            else if not (is_leader r.state) || (length cs.voters == 0)
            then r'
            else if not (is_some (lookup r.lead_transferee prs)) && not (r.lead_transferee == 0)
            then abort_leader_transfer r'
            else r',
      )
