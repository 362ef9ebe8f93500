-- ===== src/Raft/Roles.antt =====
-- raft/raft.go: `reset`, and the changes of role that start with it.
use etcd_cr.Common.{
  ℕ, ◌+◌, false, not, some, [], ◌∷◌, ltb, ◌==◌, if◌then◌else◌, add64, Result, ok, ◌>>=◌, ◌>>◌,
  assert,
}
use etcd_cr.Tracker.{Progress, ProgressMap, new_inflights, reset_votes, state_probe}
use etcd_cr.Storage.{Storage}
use etcd_cr.RaftLog.{RaftLog, last_index}
use etcd_cr.Raft.{
  Raft, state_follower, state_candidate, Rand, is_leader, new_read_only, abort_leader_transfer,
  step_follower, step_candidate, tick_by_election,
}

-- The function that `reset` visits every progress with, given `lastIndex`.
abbrev pub fresh_progress : ℕ → ℕ → ℕ → ℕ → Progress → Progress
fresh_progress self max_inflight last id pr = record {
  match = if id == self then last else 0;
  next = add64 last 1;
  state = state_probe;
  pending_snapshot = 0;
  recent_active = false;
  probe_sent = false;
  inflights = new_inflights max_inflight;
  is_learner = pr.is_learner;
}

module _ {S : Type 0} ⦃st : Storage S⦄ where
  unfoldable pub reset_progress : RaftLog S → ℕ → ℕ → ProgressMap → Result ProgressMap
  reset_progress l self max_inflight [] = ok []
  reset_progress l self max_inflight ((id, pr) ∷ m) = do
    last ← last_index l
    rest ← reset_progress l self max_inflight m
    ok ((id, fresh_progress self max_inflight last id pr) ∷ rest)

module _ {S G : Type 0} ⦃st : Storage S⦄ ⦃rng : Rand G⦄ where
  -- `resetRandomizedElectionTimeout`: `Intn` panics unless its argument is positive.
  unfoldable pub reset_randomized_election_timeout : Raft S G → Result (Raft S G)
  reset_randomized_election_timeout r = do
    assert (ltb 0 r.election_timeout)
    let (v, g) = rng.intn r.election_timeout r.rand
    ok (record r { randomized_election_timeout = r.election_timeout + v; rand = g })

  -- The vote is kept only when the term is.
  abbrev pub vote_after : ℕ → Raft S G → ℕ
  vote_after term r = if r.term == term then r.vote else 0

  -- `reset`
  unfoldable pub reset : Raft S G → ℕ → Result (Raft S G)
  reset r term = do
    r' ← reset_randomized_election_timeout (record r {
      term = term;
      vote = vote_after term r;
      lead = 0;
      election_elapsed = 0;
      heartbeat_elapsed = 0;
    })
    let r'' = abort_leader_transfer r'
    progress ← reset_progress r.raft_log r.id r.prs.max_inflight r.prs.progress
    ok (record r'' {
      prs = record (reset_votes r.prs) { progress = progress };
      pending_conf_index = 0;
      uncommitted_size = 0;
      read_only = new_read_only r.read_only.option;
    })

  -- `becomeFollower`
  unfoldable pub become_follower : Raft S G → ℕ → ℕ → Result (Raft S G)
  become_follower r term lead = do
    r' ← reset (record r { step = some step_follower }) term
    ok (record r' { tick = some tick_by_election; lead = lead; state = state_follower })

  -- `becomeCandidate`
  unfoldable pub become_candidate : Raft S G → Result (Raft S G)
  become_candidate r = do
    assert (not (is_leader r.state))
    r' ← reset (record r { step = some step_candidate }) (add64 r.term 1)
    ok (record r' { tick = some tick_by_election; vote = r'.id; state = state_candidate })
