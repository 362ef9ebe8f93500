-- ===== src/Raft/Campaigns.antt =====
-- What `MsgHup` and the election clock do to a node, in every case.
use etcd_cr.Common.{
  ℕ, ◌+◌, ◌<◌, ◌≡◌, ◌≢◌, ◌⊎◌, inl, inr, refl, sym, ap, ◌∙◌, Bool, true, false, not, ◌||◌, ◌&&◌,
  some, [], ◌∷◌, arith, ltb, leb, if◌then◌else◌, add64, Result, ok, panic, ◌>>=◌, bind_ok,
  ok_injective,
}
use etcd_cr.Raftpb.{msg_vote}
use etcd_cr.Storage.{Storage}
use etcd_cr.Util.{vote_resp_msg_type}
use etcd_cr.Tracker.{ProgressMap, record_vote}
use etcd_cr.RaftLog.{last_index}
use etcd_cr.Raft.{
  Raft, Rand, state_candidate, is_leader, step_candidate, tick_by_election, promotable,
  past_election_timeout, poll, campaign_pre_election, campaign_election,
}
use etcd_cr.Raft.Roles.{reset, reset_progress, become_candidate}
use etcd_cr.Raft.Step.{campaign, campaign_with, hup, step_message, tick_election}
use etcd_cr.Raft.Resets.{reset_to, reset-reset_to, reset-eq, reset_progress-fresh_all, fresh_all}

module _ {S G : Type 0} ⦃st : Storage S⦄ ⦃rng : Rand G⦄ where
  -- A node that has become a candidate of the next term and voted for itself.
  abbrev pub voted_to : Raft S G → ProgressMap → Raft S G
  voted_to r p = record (reset_to (record r { step = some step_candidate }) (add64 r.term 1) p) {
    tick = some tick_by_election;
    vote = r.id;
    state = state_candidate;
    prs = record r.prs { votes = (r.id, true) ∷ []; progress = p };
  }

  panic-ok : (a : Raft S G) → ◌≢◌ {A = Result (Raft S G)} panic (ok a)
  panic-ok a h = cc

  module _ (r : Raft S G) where
    campaign-eq :
        (p : ProgressMap)
        → is_leader r.state ≡ false
        → ltb 0 r.election_timeout ≡ true
        → reset_progress r.raft_log r.id r.prs.max_inflight r.prs.progress ≡ ok p
        → campaign r campaign_election ≡ ok (voted_to r p)
    unfolding campaign campaign_with become_candidate poll record_vote vote_resp_msg_type
    campaign-eq p l t e =
        rw (l, reset-eq (record r { step = some step_candidate }) (add64 r.term 1) t, e) refl

    -- A pre-election always panics.
    campaign-pre_election : campaign r campaign_pre_election ≡ panic
    unfolding campaign campaign_with vote_resp_msg_type
    campaign-pre_election = refl

    -- `MsgHup`, in all cases, on a node whose log can tell its last index and whose election
    -- timeout is positive: a leader and a node that cannot be promoted ignore it, a node with
    -- pre-vote panics, and any other becomes a candidate of the next term with its own vote.
    pub hup-cases :
        (last : ℕ)
        → last_index r.raft_log ≡ ok last
        → 0 < r.election_timeout
        → hup r ≡ (
            if is_leader r.state || not (promotable r)
            then ok r
            else if r.pre_vote
            then panic
            else ok (voted_to r (fresh_all r.id r.prs.max_inflight last r.prs.progress)))
    unfolding hup
    hup-cases last e t = ground (
      arith,
      campaign-eq (fresh_all r.id r.prs.max_inflight last r.prs.progress),
      reset_progress-fresh_all r.raft_log r.id r.prs.max_inflight last r.prs.progress e,
      campaign-pre_election,
    )

    -- What a run of `campaign` that does not panic has done.
    unfoldable pub Campaigned : Raft S G → Type 0
    Campaigned r' =
        (p : ProgressMap) × (reset_progress r.raft_log r.id r.prs.max_inflight r.prs.progress
          ≡ ok p)
        × (is_leader r.state ≡ false)
        × (r' ≡ voted_to r p)

    become_candidate-inverse :
        (r' : Raft S G)
        → become_candidate r ≡ ok r'
        → (is_leader r.state ≡ false)
          × (reset (record r { step = some step_candidate }) (add64 r.term 1) >>= λ r'.
              ok
                (record r' { tick = some tick_by_election; vote = r'.id; state = state_candidate }))
            ≡ ok r'
    unfolding become_candidate
    become_candidate-inverse r' h = ground arith

    campaign_election-Campaigned :
        (r' : Raft S G) → campaign r campaign_election ≡ ok r' → Campaigned r'
    unfolding campaign campaign_with poll record_vote vote_resp_msg_type Campaigned
    campaign_election-Campaigned r' h =
        let (c, e, f) = bind_ok (become_candidate r) (λ r'. campaign_with r' msg_vote) r' h in
        let (l, g) = become_candidate-inverse c e in
        let (r1, g1, g2) =
          bind_ok (reset (record r { step = some step_candidate }) (add64 r.term 1))
            (λ r'.
              ok
                (record r' { tick = some tick_by_election; vote = r'.id; state = state_candidate }))
            c g in
        let (p, a, b, d) =
          reset-reset_to (record r { step = some step_candidate }) r1 (add64 r.term 1) g1 in
        (
          p,
          a,
          l,
          sym (ok_injective f)
              ∙ ap {A = Raft S G} (λ c. record c { prs = record_vote c.prs c.id true })
                  (sym (ok_injective g2)
                    ∙ ap {A = Raft S G}
                        (λ r'. record r' {
                          tick = some tick_by_election;
                          vote = r'.id;
                          state = state_candidate;
                        })
                        d),
        )

    branches :
        (a b c : Bool) (r' : Raft S G)
        → (if a
            then ok r
            else if b
            then ok r
            else campaign r (if c then campaign_pre_election else campaign_election))
          ≡ ok r'
        → (r' ≡ r) ⊎ (campaign r campaign_election ≡ ok r')
    branches true b c r' h = inl (sym (ok_injective h))
    branches false true c r' h = inl (sym (ok_injective h))
    branches false false true r' h = absurd (panic-ok r' (sym campaign-pre_election ∙ h))
    branches false false false r' h = inr h

    -- The inverse: a run of `MsgHup` that ends well left the node alone, or campaigned.
    pub hup-inverse : (r' : Raft S G) → hup r ≡ ok r' → (r' ≡ r) ⊎ Campaigned r'
    unfolding hup
    hup-inverse r' h = elim (branches (is_leader r.state) (not (promotable r)) r.pre_vote r' h) [
      | inl same ↦ inl same
      | inr run ↦ inr (campaign_election-Campaigned r' run)
    ]

  module _ (r : Raft S G) where
    -- A tick, in all cases, on a node whose log can tell its last index and whose election timeout
    -- is positive: before the randomized timeout, and on a node that cannot be promoted, it only
    -- counts; at the timeout it starts the count again, and then a leader does nothing more, a
    -- node with pre-vote panics, and any other becomes a candidate of the next term.
    pub tick_election-cases :
        (last : ℕ)
        → last_index r.raft_log ≡ ok last
        → 0 < r.election_timeout
        → tick_election r ≡ (
            if promotable r && leb r.randomized_election_timeout (r.election_elapsed + 1)
            then (if is_leader r.state
                then ok (record r { election_elapsed = 0 })
                else if r.pre_vote
                then panic
                else ok (voted_to r (fresh_all r.id r.prs.max_inflight last r.prs.progress)))
            else ok (record r { election_elapsed = r.election_elapsed + 1 }))
    unfolding tick_election past_election_timeout step_message promotable
    tick_election-cases last e t =
        ground (arith, hup-cases (record r { election_elapsed = 0 }) last e t)
