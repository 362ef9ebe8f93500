-- ===== src/Tracker.antt =====
-- raft/tracker: the progress of the peers, the active configuration, and the votes of an election.
-- A pointer to a `Progress` in the map is the value itself.
pub mod Votes
use etcd_cr.Common.{
  ℕ, ◌+◌, Bool, true, false, ◌||◌, Option, none, some, List, [], ◌∷◌, ltb, ◌==◌, if◌then◌else◌, map,
}
use etcd_cr.Common.Maps.{IdSet, ids, has, lookup, insert}
use etcd_cr.Raftpb.{ConfState}
use etcd_cr.Quorum.{VoteResult, JointConfig, joint_ids, joint_vote_result, majority_slice, sort_ids}

pub data StateType : Type 0 where
  state_probe state_replicate state_snapshot : StateType

pub record Inflights : Type 0 where
  pub start : ℕ
  pub count : ℕ
  pub size : ℕ
  pub buffer : List ℕ

-- `NewInflights`
abbrev pub new_inflights : ℕ → Inflights
new_inflights size = record { start = 0; count = 0; size = size; buffer = [] }

pub record Progress : Type 0 where
  pub match : ℕ
  pub next : ℕ
  pub state : StateType
  pub pending_snapshot : ℕ
  pub recent_active : Bool
  pub probe_sent : Bool
  pub inflights : Inflights
  pub is_learner : Bool

abbrev pub ProgressMap : Type 0
ProgressMap = List (ℕ × Progress)

pub record Config : Type 0 where
  pub voters : JointConfig
  pub auto_leave : Bool
  pub learners : IdSet
  pub learners_next : IdSet

-- `(*Config).Clone`: the copy is made field by field, and leaves `AutoLeave` out.
unfoldable pub clone : Config → Config
clone c = record {
  voters = c.voters;
  auto_leave = false;
  learners = c.learners;
  learners_next = c.learners_next;
}

pub record ProgressTracker : Type 0 where
  pub config : Config
  pub open config use *
  pub progress : ProgressMap
  pub votes : List (ℕ × Bool)
  pub max_inflight : ℕ

-- `MakeProgressTracker`
unfoldable pub make_progress_tracker : ℕ → ProgressTracker
make_progress_tracker max_inflight = record {
  config = record {
    voters = record { incoming = some []; outgoing = none };
    auto_leave = false;
    learners = none;
    learners_next = none;
  };
  progress = [];
  votes = [];
  max_inflight = max_inflight;
}

-- `(*ProgressTracker).ConfState`
unfoldable pub conf_state : ProgressTracker → ConfState
unfolding majority_slice
conf_state p = record {
  voters = majority_slice p.voters.incoming;
  voters_outgoing = majority_slice p.voters.outgoing;
  learners = majority_slice p.learners;
  learners_next = majority_slice p.learners_next;
  auto_leave = p.auto_leave;
}

visit_all : (ℕ → Progress → Progress) → ProgressMap → ProgressMap
visit_all f [] = []
visit_all f ((id, pr) ∷ m) = (id, f id pr) ∷ visit_all f m

-- `Visit`, with a function that sets the progress it is given.
unfoldable pub visit : (ℕ → Progress → Progress) → ProgressTracker → ProgressTracker
unfolding visit_all
visit f p = record p { progress = visit_all f p.progress }

-- `VoterNodes`
unfoldable pub voter_nodes : ProgressTracker → List ℕ
voter_nodes p = sort_ids (joint_ids p.voters)

-- `LearnerNodes`
unfoldable pub learner_nodes : ProgressTracker → List ℕ
learner_nodes p = sort_ids (ids p.learners)

-- `ResetVotes`
unfoldable pub reset_votes : ProgressTracker → ProgressTracker
reset_votes p = record p { votes = [] }

-- `RecordVote`
unfoldable pub record_vote : ProgressTracker → ℕ → Bool → ProgressTracker
record_vote p id v = elim (lookup id p.votes) [
  | none ↦ record p { votes = insert id v p.votes }
  | some _ ↦ p
]

-- One round of the counting loop of `TallyVotes`.
abbrev pub tally_one : Progress → Option Bool → ℕ × ℕ → ℕ × ℕ
tally_one pr vote (granted, rejected) = if pr.is_learner then (granted, rejected) else (elim vote [
  | none ↦ (granted, rejected)
  | some v ↦ if v then (granted + 1, rejected) else (granted, rejected + 1)
])

unfoldable pub tally_from : ProgressMap → List (ℕ × Bool) → ℕ × ℕ → ℕ × ℕ
tally_from [] votes t = t
tally_from ((id, pr) ∷ m) votes t = tally_from m votes (tally_one pr (lookup id votes) t)

-- `TallyVotes`
unfoldable pub tally_votes : ProgressTracker → ℕ × ℕ × VoteResult
tally_votes p =
    let (granted, rejected) = tally_from p.progress p.votes (0, 0) in
    (granted, rejected, joint_vote_result p.voters p.votes)
