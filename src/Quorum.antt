-- ===== src/Quorum.antt =====
-- raft/quorum: majority and joint configurations, and the result of a vote.
pub mod Counting
pub mod Majority
pub mod Joint
pub mod Sorting
use etcd_cr.Common.{
  ℕ, ◌+◌, ◌/◌, Bool, true, false, ◌||◌, Option, none, some, List, [], ◌∷◌, leb, ltb, ◌==◌,
  if◌then◌else◌, length,
}
use etcd_cr.Common.Maps.{IdSet, ids, has, add_id, lookup}

pub data VoteResult : Type 0 where
  vote_pending vote_lost vote_won : VoteResult

abbrev pub Votes : Type 0
Votes = List (ℕ × Bool)

-- The counters `ny[0]`, `ny[1]` and `missing`.
pub record Tally : Type 0 where
  pub no : ℕ
  pub yes : ℕ
  pub missing : ℕ

-- One round of the counting loop, for a voter with the given entry in `votes`.
abbrev pub count_vote : Option Bool → Tally → Tally
count_vote none t = record t { missing = t.missing + 1 }
count_vote (some true) t = record t { yes = t.yes + 1 }
count_vote (some false) t = record t { no = t.no + 1 }

-- `for id := range c`
unfoldable pub count_votes : List ℕ → Votes → Tally → Tally
count_votes [] votes t = t
count_votes (id ∷ c) votes t = count_votes c votes (count_vote (lookup id votes) t)

abbrev pub zero_tally : Tally
zero_tally = record { no = 0; yes = 0; missing = 0 }

-- The end of `VoteResult`, from the counters and the number of voters.
abbrev pub decide_vote : ℕ → Tally → VoteResult
decide_vote n t =
    let q = n / 2 + 1 in
    if leb q t.yes
    then vote_won
    else (if leb q (t.yes + t.missing) then vote_pending else vote_lost)

-- `(MajorityConfig).VoteResult`
unfoldable pub majority_vote_result : IdSet → Votes → VoteResult
majority_vote_result c votes =
    if length (ids c) == 0
    then vote_won
    else decide_vote (length (ids c)) (count_votes (ids c) votes zero_tally)

-- `[2]MajorityConfig`
pub record JointConfig : Type 0 where
  pub incoming : IdSet
  pub outgoing : IdSet

abbrev pub add_all : List ℕ → List ℕ → List ℕ
add_all [] m = m
add_all (id ∷ c) m = add_all c (add_id id m)

-- `(JointConfig).IDs`
unfoldable pub joint_ids : JointConfig → List ℕ
joint_ids c = add_all (ids c.outgoing) (add_all (ids c.incoming) [])

abbrev pub is_lost : VoteResult → Bool
is_lost vote_lost = true
is_lost _ = false

abbrev pub same_result : VoteResult → VoteResult → Bool
same_result vote_pending vote_pending = true
same_result vote_lost vote_lost = true
same_result vote_won vote_won = true
same_result _ _ = false

-- `(JointConfig).VoteResult`
unfoldable pub joint_vote_result : JointConfig → Votes → VoteResult
joint_vote_result c votes =
    let r1 = majority_vote_result c.incoming votes in
    let r2 = majority_vote_result c.outgoing votes in
    if same_result r1 r2 then r1 else (if is_lost r1 || is_lost r2 then vote_lost else vote_pending)

abbrev pub insert_sorted : ℕ → List ℕ → List ℕ
insert_sorted id [] = id ∷ []
insert_sorted id (x ∷ xs) = if ltb x id then x ∷ insert_sorted id xs else id ∷ x ∷ xs

-- What `sort.Slice` by `<` leaves of a list of ids.
unfoldable pub sort_ids : List ℕ → List ℕ
sort_ids [] = []
sort_ids (x ∷ xs) = insert_sorted x (sort_ids xs)

-- `(MajorityConfig).Slice`
unfoldable pub majority_slice : IdSet → List ℕ
majority_slice c = sort_ids (ids c)
