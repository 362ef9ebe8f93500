-- ===== src/Quorum/Counting.antt =====
-- The counting loop of `VoteResult` against counts defined on their own.
use etcd_cr.Common.{
  ℕ, ◌+◌, ◌≡◌, Bool, true, false, Option, none, some, List, [], ◌∷◌, arith, length, if◌then◌else◌,
}
use etcd_cr.Common.Maps.{lookup}
use etcd_cr.Quorum.{Votes, Tally, count_vote, count_votes}

-- Whether a voter's entry is the given vote.
abbrev pub is_vote : Bool → Option Bool → ℕ
is_vote b none = 0
is_vote true (some v) = if v then 1 else 0
is_vote false (some v) = if v then 0 else 1

-- How many of the voters have voted so.
abbrev pub voted : Bool → List ℕ → Votes → ℕ
voted b [] votes = 0
voted b (id ∷ c) votes = is_vote b (lookup id votes) + voted b c votes

pub count_votes-voted :
    (c : List ℕ) (votes : Votes) (t : Tally)
    → ((count_votes c votes t).yes ≡ t.yes + voted true c votes)
      × ((count_votes c votes t).no ≡ t.no + voted false c votes)
      × ((count_votes c votes t).missing + voted true c votes + voted false c votes
          ≡ t.missing + length c)
unfolding count_votes
count_votes-voted [] votes t = omega arith
count_votes-voted (id ∷ c) votes t =
    ground (arith, count_votes-voted c votes (count_vote (lookup id votes) t))
