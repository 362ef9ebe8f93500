-- ===== src/Tests/Votes.antt =====
-- Elections and membership changes among three peers.
use mathlib.Core.Path.{◌≡◌}
use etcd_cr.Common.{ℕ, refl, Bool, true, false, none, some, List, [], ◌∷◌}
use etcd_cr.Common.Maps.{IdSet, ids, has, lookup}
use etcd_cr.Quorum.{
  Votes, vote_won, majority_vote_result, joint_vote_result, JointConfig, count_votes,
}
use etcd_cr.Quorum.Majority.{majority_vote_result-eq}
use etcd_cr.Quorum.Joint.{joint-overlap}
use etcd_cr.Tracker.{Progress, ProgressTracker, state_probe, new_inflights, tally_votes}
use etcd_cr.Tracker.Votes.{tally_votes-voted}

abbrev three : IdSet
three = some (1 ∷ 2 ∷ 3 ∷ [])

abbrev by_two : Votes
by_two = (1, true) ∷ (2, true) ∷ []

abbrev by_all : Votes
by_all = (1, true) ∷ (2, true) ∷ (3, false) ∷ []

majority_vote_result-eq_example : majority_vote_result three by_all ≡ vote_won
majority_vote_result-eq_example = majority_vote_result-eq three by_all

-- The peers 1, 2 and 3 take over from 1, 2 and 4.
abbrev changing : JointConfig
changing = record { incoming = three; outgoing = some (1 ∷ 2 ∷ 4 ∷ []) }

joint_win : joint_vote_result changing by_two ≡ vote_won
unfolding joint_vote_result majority_vote_result count_votes
joint_win = refl

abbrev by_three : Votes
by_three = (3, true) ∷ (2, true) ∷ (4, true) ∷ []

other_joint_win : joint_vote_result changing by_three ≡ vote_won
unfolding joint_vote_result majority_vote_result count_votes
other_joint_win = refl

joint-overlap_example :
    (id : ℕ) × (has id (ids three) ≡ true)
    × (lookup id by_two ≡ some true)
    × (lookup id by_three ≡ some true)
joint-overlap_example = joint-overlap changing by_two by_three (λ h. cc) joint_win other_joint_win

abbrev pub peer : ℕ → ℕ × Progress
peer id = (
  id,
  record {
    match = 0;
    next = 1;
    state = state_probe;
    pending_snapshot = 0;
    recent_active = true;
    probe_sent = false;
    inflights = new_inflights 256;
    is_learner = false;
  },
)

abbrev pub three_peers : List (ℕ × Bool) → ProgressTracker
three_peers votes = record {
  config = record {
    voters = record { incoming = three; outgoing = none };
    auto_leave = false;
    learners = none;
    learners_next = none;
  };
  progress = peer 1 ∷ peer 2 ∷ peer 3 ∷ [];
  votes = votes;
  max_inflight = 256;
}

tally_votes-voted_example :
    tally_votes (three_peers by_all) ≡ (2, 1, joint_vote_result (three_peers by_all).voters by_all)
tally_votes-voted_example = tally_votes-voted (three_peers by_all)
