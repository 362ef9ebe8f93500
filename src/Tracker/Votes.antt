-- ===== src/Tracker/Votes.antt =====
-- The votes of an election: recording and tallying.
use etcd_cr.Common.{
  ℕ, ◌+◌, ◌≡◌, ◌≢◌, refl, ap, ◌∙◌, Bool, true, false, none, some, List, [], ◌∷◌, arith, ◌==◌,
  if◌then◌else◌,
}
use etcd_cr.Common.Maps.{lookup, lookup-insert}
use etcd_cr.Quorum.{vote_pending, joint_vote_result}
use etcd_cr.Quorum.Counting.{voted}
use etcd_cr.Quorum.Majority.{Extends}
use etcd_cr.Quorum.Joint.{joint-stable}
use etcd_cr.Tracker.{Config, ProgressMap, ProgressTracker, record_vote, tally_from, tally_votes}

-- `RecordVote` counts the first vote of a node: it keeps the votes of all others, and of the node
-- too if it has voted before.
lookup-record_vote :
    (p : ProgressTracker) (id j : ℕ) (v : Bool)
    → lookup j (record_vote p id v).votes
      ≡ (elim (lookup j p.votes) [ some w ↦ some w | none ↦ if id == j then some v else none ])
unfolding record_vote
lookup-record_vote p id j v = ground (arith, lookup-insert id j v p.votes)

record_vote-Extends :
    (p : ProgressTracker) (id : ℕ) (v : Bool) → Extends p.votes (record_vote p id v).votes
record_vote-Extends p id v = λ j b h. lookup-record_vote p id j v ∙ rw h refl

record_vote-config :
    (p : ProgressTracker) (id : ℕ) (v : Bool) → (record_vote p id v).config ≡ p.config
unfolding record_vote
record_vote-config p id v = ground arith

-- Once the votes decide an election, no vote that is recorded later changes the outcome.
pub record_vote-decided :
    (p : ProgressTracker) (id : ℕ) (v : Bool)
    → (tally_votes p).2 ≢ vote_pending
    → (tally_votes (record_vote p id v)).2 ≡ (tally_votes p).2
unfolding tally_votes
record_vote-decided p id v d =
    ap (λ (c : Config). joint_vote_result c.voters (record_vote p id v).votes)
      (record_vote-config p id v)
    ∙ joint-stable p.voters p.votes (record_vote p id v).votes (record_vote-Extends p id v) d

-- The peers that are not learners.
abbrev pub full_members : ProgressMap → List ℕ
full_members [] = []
full_members ((id, pr) ∷ m) = if pr.is_learner then full_members m else id ∷ full_members m

tally_from-voted :
    (m : ProgressMap) (votes : List (ℕ × Bool)) (g r : ℕ)
    → ((tally_from m votes (g, r)).0 ≡ g + voted true (full_members m) votes)
      × ((tally_from m votes (g, r)).1 ≡ r + voted false (full_members m) votes)
unfolding tally_from
tally_from-voted [] votes g r = omega arith
tally_from-voted ((id, pr) ∷ m) votes g r = ground (
  arith,
  tally_from-voted m votes g r,
  tally_from-voted m votes (g + 1) r,
  tally_from-voted m votes g (r + 1),
)

-- `TallyVotes` counts the yes and no votes of the peers that are not learners, and gives the
-- outcome of the joint configuration on all votes.
pub tally_votes-voted :
    (p : ProgressTracker)
    → tally_votes p ≡ (
      voted true (full_members p.progress) p.votes,
      voted false (full_members p.progress) p.votes,
      joint_vote_result p.voters p.votes,
    )
unfolding tally_votes
tally_votes-voted p = ground (arith, tally_from-voted p.progress p.votes 0 0)
