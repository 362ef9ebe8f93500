-- ===== src/Raft/Starts.antt =====
-- What `newRaft` gives.
use etcd_cr.Common.{
  ℕ, ◌<◌, ◌≡◌, refl, subst, must, sym, ap, ◌∙◌, some, Result, ok, err, panic, sub64, ◌>>=◌, bind_ok,
  ok_injective,
}
use etcd_cr.Storage.{Storage}
use etcd_cr.RaftLog.{RaftLog, last_index, last_term, new_log_with_size}
use etcd_cr.Tracker.{ProgressMap, make_progress_tracker}
use etcd_cr.Raft.{
  Raft, Rand, StartConfig, is_leader, state_follower, load_state, validate, step_follower,
  tick_by_election,
}
use etcd_cr.Raft.Roles.{reset, become_follower, reset_progress}
use etcd_cr.Raft.Step.{new_raft, initial_raft}
use etcd_cr.Raft.Resets.{reset_to, reset-reset_to}
use etcd_cr.Raft.History.{OwnVote}

must-ok : {A : Type 0} (t : Result A) (a : A) → must t ≡ ok a → t ≡ ok a
must-ok (ok b) a h = h
must-ok (err e) a h = cc
must-ok panic a h = cc

-- The indices of the log that `newLogWithSize` makes.
new_log_with_size-below :
    {S : Type 0} ⦃st : Storage S⦄ (storage : S) (limit : ℕ) (l : RaftLog S)
    → new_log_with_size storage limit ≡ ok l
    → (first : ℕ) × (st.first_index storage ≡ ok first)
      × (l.committed ≡ sub64 first 1)
      × (l.applied ≡ sub64 first 1)
unfolding new_log_with_size
new_log_with_size-below ⦃st = st⦄ storage limit l h =
    let (first, a, h1) = bind_ok (must (st.first_index storage)) _ l h in
    let (last, b, h2) = bind_ok (must (st.last_index storage)) _ l h1 in
    (
      first,
      must-ok (st.first_index storage) first a,
      ap (λ l. l.committed) (sym (ok_injective h2)),
      ap (λ l. l.applied) (sym (ok_injective h2)),
    )

module _ {S G : Type 0} ⦃st : Storage S⦄ ⦃rng : Rand G⦄ where
  -- What a `becomeFollower` that does not panic has done.
  become_follower-inverse :
      (r r' : Raft S G) (term lead : ℕ)
      → become_follower r term lead ≡ ok r'
      → (p : ProgressMap) × (reset_progress r.raft_log r.id r.prs.max_inflight r.prs.progress
          ≡ ok p)
        × (0 < r.election_timeout)
        × (r' ≡ record (reset_to (record r { step = some step_follower }) term p) {
          tick = some tick_by_election;
          lead = lead;
          state = state_follower;
        })
  unfolding become_follower
  become_follower-inverse r r' term lead h =
      let (r1, e, f) =
        bind_ok (reset (record r { step = some step_follower }) term)
          (λ r'.
            ok (record r' { tick = some tick_by_election; lead = lead; state = state_follower }))
          r' h in
      let (p, a, b, d) = reset-reset_to (record r { step = some step_follower }) r1 term e in
      (
        p,
        a,
        b,
        sym (ok_injective f)
            ∙ ap {A = Raft S G}
                (λ r'. record r' {
                  tick = some tick_by_election;
                  lead = lead;
                  state = state_follower;
                })
                d,
      )

  new_raft-inverse :
      (c : StartConfig S) (g : G) (r : Raft S G)
      → new_raft c g ≡ ok r
      → (l : RaftLog S) × (new_log_with_size c.storage c.max_committed_size_per_ready ≡ ok l)
        × (become_follower (initial_raft c l g) 0 0 ≡ ok r)
  unfolding new_raft load_state
  new_raft-inverse c g r h =
      let (u, a, h1) =
        bind_ok (must (validate c))
          (λ _. do
            l ← new_log_with_size c.storage c.max_committed_size_per_ready
            (hs, cs) ← must (st.initial_state c.storage)
            last_steps l)
          r h in
      let (l, b, h2) =
        bind_ok (new_log_with_size c.storage c.max_committed_size_per_ready)
          (λ l. do (hs, cs) ← must (st.initial_state c.storage); last_steps l) r h1 in
      let (hc, d, h3) =
        bind_ok (must (st.initial_state c.storage)) (λ (hs, cs). last_steps l) r h2 in
      let (r', e, h4) =
        bind_ok (become_follower (initial_raft c l g) 0 0)
          (λ r'. do _ ← last_index r'.raft_log; _ ← last_term r'.raft_log; ok r') r h3 in
      let (i, k, h5) =
        bind_ok (last_index r'.raft_log) (λ _. do _ ← last_term r'.raft_log; ok r') r h4 in
      let (t, m, h6) = bind_ok (last_term r'.raft_log) (λ _. ok r') r h5 in (l, b, e ∙ h6)
    where
      last_steps : RaftLog S → Result (Raft S G)
      last_steps l = do
        r' ← become_follower (initial_raft c l g) 0 0
        _ ← last_index r'.raft_log
        _ ← last_term r'.raft_log
        ok r'

  -- A node that `newRaft` starts is a follower without a leader, a term, a vote or a peer, whatever
  -- hard state and membership the storage holds. Its log is the one that `newLogWithSize` makes,
  -- committed and applied up to the index below the first one of the storage.
  pub new_raft-forgets :
      (c : StartConfig S) (g : G) (r : Raft S G)
      → new_raft c g ≡ ok r
      → (r.state ≡ state_follower)
        × (r.term ≡ 0)
        × (r.vote ≡ 0)
        × (r.lead ≡ 0)
        × (r.prs ≡ make_progress_tracker c.max_inflight_msgs)
        × (new_log_with_size c.storage c.max_committed_size_per_ready ≡ ok r.raft_log)
        × ((first : ℕ) × (st.first_index c.storage ≡ ok first)
            × (r.raft_log.committed ≡ sub64 first 1)
            × (r.raft_log.applied ≡ sub64 first 1))
        × OwnVote r
  unfolding is_leader reset_progress make_progress_tracker
  new_raft-forgets c g r h =
      let (l, a, b) = new_raft-inverse c g r h in
      let (p, e, d, f) = become_follower-inverse (initial_raft c l g) r 0 0 b in
      subst
        (λ r.
          (r.state ≡ state_follower)
          × (r.term ≡ 0)
          × (r.vote ≡ 0)
          × (r.lead ≡ 0)
          × (r.prs ≡ make_progress_tracker c.max_inflight_msgs)
          × (new_log_with_size c.storage c.max_committed_size_per_ready ≡ ok r.raft_log)
          × ((first : ℕ) × (st.first_index c.storage ≡ ok first)
              × (r.raft_log.committed ≡ sub64 first 1)
              × (r.raft_log.applied ≡ sub64 first 1))
          × OwnVote r)
        (sym f)
        (
          refl,
          refl,
          refl,
          refl,
          ap (λ p. record (make_progress_tracker c.max_inflight_msgs) { progress = p })
              (sym (ok_injective e)),
          a,
          new_log_with_size-below c.storage c.max_committed_size_per_ready l a,
          record { no_leader = refl; candidate_vote = λ h. cc; candidate_tally = λ h. cc },
        )
