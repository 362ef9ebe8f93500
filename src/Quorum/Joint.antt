-- ===== src/Quorum/Joint.antt =====
-- What the vote of a joint configuration decides.
use etcd_cr.Common.{ℕ, ◌≡◌, ◌≢◌, true, [], some, arith, ◌↔◌, ◌⊎◌}
use etcd_cr.Common.Maps.{ids, has, lookup}
use etcd_cr.Quorum.{
  Votes, vote_won, vote_lost, vote_pending, JointConfig, majority_vote_result, joint_vote_result,
}
use etcd_cr.Quorum.Majority.{Extends, majority-overlap, majority-stable}

-- A joint vote is won exactly when both halves have won, and lost exactly when one has lost.
joint_vote_result_iff :
    (c : JointConfig) (v : Votes)
    → ((joint_vote_result c v ≡ vote_won) ↔ (
        (majority_vote_result c.incoming v ≡ vote_won)
        × (majority_vote_result c.outgoing v ≡ vote_won)))
      × ((joint_vote_result c v ≡ vote_lost) ↔ (
          (majority_vote_result c.incoming v ≡ vote_lost)
          ⊎ (majority_vote_result c.outgoing v ≡ vote_lost)))
unfolding joint_vote_result
joint_vote_result_iff c v =
    ((λ h. ground arith, λ h. ground arith), (λ h. ground arith, λ h. ground arith))

-- Two sets of votes that both win in a joint configuration whose incoming half has voters share a
-- yes vote of one of those voters.
pub joint-overlap :
    (c : JointConfig) (v w : Votes)
    → ids c.incoming ≢ []
    → joint_vote_result c v ≡ vote_won
    → joint_vote_result c w ≡ vote_won
    → (id : ℕ) × (has id (ids c.incoming) ≡ true)
      × (lookup id v ≡ some true)
      × (lookup id w ≡ some true)
joint-overlap c v w ne p q =
    majority-overlap c.incoming v w ne (((joint_vote_result_iff c v).0.0 p).0)
      (((joint_vote_result_iff c w).0.0 q).0)

-- A decided joint vote stays decided the same way, whatever votes come in later.
pub joint-stable :
    (c : JointConfig) (v w : Votes)
    → Extends v w
    → joint_vote_result c v ≢ vote_pending
    → joint_vote_result c w ≡ joint_vote_result c v
unfolding joint_vote_result
joint-stable c v w h d =
    ground (arith, majority-stable c.incoming v w h, majority-stable c.outgoing v w h)
