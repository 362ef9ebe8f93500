-- ===== src/Raft/Resets.antt =====
-- What `reset`, `becomeFollower` and `becomeCandidate` do to a node.
use etcd_cr.Common.{
  subst, ◌≤◌, ◌*◌, ◌==◌, if◌then◌else◌, ℕ, ◌+◌, ◌<◌, ◌≡◌, ◌≢◌, inl, inr, refl, sym, ◌∙◌, true,
  false, [], ◌∷◌, arith, ltb, Result, ok, panic, ◌>>=◌, bind_ok, ok_injective, Bool-cases,
}
use etcd_cr.Storage.{Storage}
use etcd_cr.Tracker.{ProgressMap, reset_votes}
use etcd_cr.RaftLog.{RaftLog, last_index}
use etcd_cr.Raft.{Raft, Rand, new_read_only, abort_leader_transfer}
use etcd_cr.Raft.Roles.{
  reset_randomized_election_timeout, fresh_progress, reset_progress, vote_after, reset,
}

-- Every progress after `reset`, where the last index is `last`.
abbrev pub fresh_all : ℕ → ℕ → ℕ → ProgressMap → ProgressMap
fresh_all self max_inflight last [] = []
fresh_all self max_inflight last ((id, pr) ∷ m) =
    (id, fresh_progress self max_inflight last id pr) ∷ fresh_all self max_inflight last m

pub reset_progress-fresh_all :
    {S : Type 0} ⦃st : Storage S⦄ (l : RaftLog S) (self max_inflight last : ℕ) (m : ProgressMap)
    → last_index l ≡ ok last
    → reset_progress l self max_inflight m ≡ ok (fresh_all self max_inflight last m)
unfolding reset_progress
reset_progress-fresh_all l self k last [] e = refl
reset_progress-fresh_all l self k last ((id, pr) ∷ m) e =
    rw (e, reset_progress-fresh_all l self k last m e) refl

module _ {S G : Type 0} ⦃st : Storage S⦄ ⦃rng : Rand G⦄ where
  -- The node after `reset`, with the progress that it computes.
  abbrev pub reset_to : Raft S G → ℕ → ProgressMap → Raft S G
  reset_to r term progress = record r {
    term = term;
    vote = vote_after term r;
    lead = 0;
    election_elapsed = 0;
    heartbeat_elapsed = 0;
    lead_transferee = 0;
    randomized_election_timeout = r.election_timeout + (rng.intn r.election_timeout r.rand).0;
    rand = (rng.intn r.election_timeout r.rand).1;
    prs = record r.prs { votes = []; progress = progress };
    pending_conf_index = 0;
    uncommitted_size = 0;
    read_only = new_read_only r.read_only.option;
  }

  pub reset-eq :
      (r : Raft S G) (term : ℕ)
      → ltb 0 r.election_timeout ≡ true
      → reset r term ≡ (
          reset_progress r.raft_log r.id r.prs.max_inflight r.prs.progress >>= λ p.
          ok (reset_to r term p))
  unfolding reset reset_randomized_election_timeout abort_leader_transfer reset_votes
  reset-eq r term h = rw h refl

  reset-panics : (r : Raft S G) (term : ℕ) → ltb 0 r.election_timeout ≡ false → reset r term ≡ panic
  unfolding reset reset_randomized_election_timeout
  reset-panics r term h = rw h refl

  -- What a `reset` that does not panic has done.
  pub reset-reset_to :
      (r r' : Raft S G) (term : ℕ)
      → reset r term ≡ ok r'
      → (p : ProgressMap) × (reset_progress r.raft_log r.id r.prs.max_inflight r.prs.progress
          ≡ ok p)
        × (0 < r.election_timeout)
        × (r' ≡ reset_to r term p)
  reset-reset_to r r' term h = elim (Bool-cases (ltb 0 r.election_timeout)) [
    | inl t ↦
        let (p, e, f) =
          bind_ok (reset_progress r.raft_log r.id r.prs.max_inflight r.prs.progress)
            (λ p. ok (reset_to r term p)) r' (sym (reset-eq r term t) ∙ h) in
        (p, e, ground arith, sym (ok_injective f))
    | inr n ↦ absurd (panic-ok r' (sym (reset-panics r term n) ∙ h))
  ]
    where
      panic-ok : (a : Raft S G) → ◌≢◌ {A = Result (Raft S G)} panic (ok a)
      panic-ok a h = cc

  -- With a generator that draws below its bound, a `reset` that does not panic leaves a node of the
  -- given term without a leader, that has the vote of before if the term is the same and none
  -- otherwise, no counted votes, a clock at 0, and a randomized timeout of at least one and less
  -- than two election timeouts.
  reset-timeout :
      (draws_below : (n : ℕ) (g : G) → 0 < n → (rng.intn n g).0 < n) (r r' : Raft S G) (term : ℕ)
      → reset r term ≡ ok r'
      → (r'.term ≡ term)
        × (r'.lead ≡ 0)
        × (r'.vote ≡ (if r.term == term then r.vote else 0))
        × (r'.prs.votes ≡ [])
        × (r'.election_elapsed ≡ 0)
        × (r.election_timeout ≤ r'.randomized_election_timeout)
        × (r'.randomized_election_timeout < 2 * r.election_timeout)
  reset-timeout draws_below r r' term h =
      let (p, e, positive, same) = reset-reset_to r r' term h in
      let drawn : (rng.intn r.election_timeout r.rand).0 < r.election_timeout =
        draws_below r.election_timeout r.rand positive in
      subst
        (λ r'.
          (r'.term ≡ term)
          × (r'.lead ≡ 0)
          × (r'.vote ≡ (if r.term == term then r.vote else 0))
          × (r'.prs.votes ≡ [])
          × (r'.election_elapsed ≡ 0)
          × (r.election_timeout ≤ r'.randomized_election_timeout)
          × (r'.randomized_election_timeout < 2 * r.election_timeout))
        (sym same) (refl, refl, refl, refl, refl, omega arith, omega (arith, drawn))
