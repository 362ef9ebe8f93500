-- ===== src/Raft/Elections.antt =====
-- The clock of raft/raft.go: when a node that hears from no leader campaigns.
use etcd_cr.Common.{
  ℕ, zero, suc, ◌+◌, ◌≤◌, ◌<◌, ◌≡◌, refl, ap, ◌∙◌, true, false, arith, Result, ok, ◌>>=◌, le→leb,
  lt→leb_false,
}
use etcd_cr.Storage.{Storage}
use etcd_cr.RaftLog.{last_index}
use etcd_cr.Raft.{Raft, Rand, is_leader, promotable}
use etcd_cr.Raft.Step.{tick_election}
use etcd_cr.Raft.Resets.{fresh_all}
use etcd_cr.Raft.Campaigns.{voted_to, tick_election-cases}

module _ {S G : Type 0} ⦃st : Storage S⦄ ⦃rng : Rand G⦄ where
  -- `n` ticks with nothing in between.
  unfoldable pub ticks : ℕ → Raft S G → Result (Raft S G)
  ticks zero r = ok r
  ticks (suc n) r = tick_election r >>= ticks n

  -- A node that campaigns when its timeout has passed.
  pub record CanCampaign (last : ℕ) (r : Raft S G) : Type 0 where
    pub log_ends : last_index r.raft_log ≡ ok last
    pub timeout : 0 < r.election_timeout
    pub voter : promotable r ≡ true
    pub no_leader : is_leader r.state ≡ false
    pub no_pre_vote : r.pre_vote ≡ false
    pub waits : r.election_elapsed < r.randomized_election_timeout

  abbrev pub elapsed : ℕ → Raft S G → Raft S G
  elapsed n r = record r { election_elapsed = n }

  tick-early :
      (last : ℕ) (r : Raft S G)
      → CanCampaign last r
      → r.election_elapsed + 1 < r.randomized_election_timeout
      → tick_election r ≡ ok (elapsed (r.election_elapsed + 1) r)
  tick-early last r c early =
      tick_election-cases r last c.log_ends c.timeout
      ∙ rw (c.voter, lt→leb_false r.randomized_election_timeout (r.election_elapsed + 1) early) refl

  tick-due :
      (last : ℕ) (r : Raft S G)
      → CanCampaign last r
      → r.randomized_election_timeout ≤ r.election_elapsed + 1
      → tick_election r ≡ ok (voted_to r (fresh_all r.id r.prs.max_inflight last r.prs.progress))
  tick-due last r c due =
      tick_election-cases r last c.log_ends c.timeout
      ∙ rw
          (
            c.voter,
            le→leb r.randomized_election_timeout (r.election_elapsed + 1) due,
            c.no_leader,
            c.no_pre_vote,
          )
          refl

  CanCampaign-tick :
      (last : ℕ) (r : Raft S G)
      → CanCampaign last r
      → r.election_elapsed + 1 < r.randomized_election_timeout
      → CanCampaign last (elapsed (r.election_elapsed + 1) r)
  unfolding promotable
  CanCampaign-tick last r c early = record {
    log_ends = c.log_ends;
    timeout = c.timeout;
    voter = c.voter;
    no_leader = c.no_leader;
    no_pre_vote = c.no_pre_vote;
    waits = early;
  }

  ticks-early :
      (last n m : ℕ) (r : Raft S G)
      → CanCampaign last r
      → m ≡ r.election_elapsed + n
      → m < r.randomized_election_timeout
      → ticks n r ≡ ok (elapsed m r)
  unfolding ticks
  ticks-early last zero m r c e early =
      let same : r.election_elapsed ≡ m = omega arith in ap (λ k. ok (elapsed k r)) same
  ticks-early last (suc n) m r c e early =
      ap (λ t. t >>= ticks n) (tick-early last r c (omega arith))
      ∙ ticks-early last n m (elapsed (r.election_elapsed + 1) r)
          (CanCampaign-tick last r c (omega arith)) (omega arith) early

  ticks-due :
      (last n : ℕ) (r : Raft S G)
      → CanCampaign last r
      → r.election_elapsed + suc n ≡ r.randomized_election_timeout
      → ticks (suc n) r ≡ ok (voted_to r (fresh_all r.id r.prs.max_inflight last r.prs.progress))
  unfolding ticks
  ticks-due last zero r c e = ap (λ t. t >>= ticks 0) (tick-due last r c (omega arith))
  ticks-due last (suc n) r c e =
      ap (λ t. t >>= ticks (suc n)) (tick-early last r c (omega arith))
      ∙ ticks-due last n (elapsed (r.election_elapsed + 1) r)
          (CanCampaign-tick last r c (omega arith)) (omega arith)

  -- A node without pre-vote that is a full member and no leader, with a positive election timeout and
  -- a log that can tell its last index, campaigns at the tick at which its randomized timeout is
  -- reached, and no sooner: the ticks before only count; then it is a candidate of the next term with
  -- its own vote.
  pub ticks-campaign :
      (last k n : ℕ) (r : Raft S G)
      → CanCampaign last r
      → k ≤ n
      → r.election_elapsed + suc n ≡ r.randomized_election_timeout
      → (ticks k r ≡ ok (elapsed (r.election_elapsed + k) r))
        × (ticks (suc n) r
            ≡ ok (voted_to r (fresh_all r.id r.prs.max_inflight last r.prs.progress)))
  ticks-campaign last k n r c le due =
      (ticks-early last k (r.election_elapsed + k) r c refl (omega arith), ticks-due last n r c due)
