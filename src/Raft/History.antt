-- ===== src/Raft/History.antt =====
-- Runs of a raft node: messages, ticks and membership changes, in any order.
use etcd_cr.Common.{
  ℕ, suc, ◌+◌, ◌≤◌, ◌<◌, ◌≡◌, ◌⊎◌, inl, inr, refl, subst, must, sym, ap, ◌∙◌, Bool, true, false,
  not, ◌||◌, ◌&&◌, some, arith, length, ◌==◌, if◌then◌else◌, add64, add64-eq, u64_mod, ok, ◌>>=◌,
  bind_ok, ok_injective,
}
use etcd_cr.Common.Maps.{lookup}
use etcd_cr.Raftpb.{Message, MessageType, ConfState, ConfChangeV2, msg_hup}
use etcd_cr.Storage.{Storage}
use etcd_cr.Tracker.{Config, ProgressMap, conf_state}
use etcd_cr.Confchange.{simple}
use etcd_cr.RaftLog.{last_index}
use etcd_cr.Raft.{
  Raft, Rand, state_candidate, is_leader, switch_to_config, is_learner_in, is_some, promotable,
  past_election_timeout, abort_leader_transfer,
}
use etcd_cr.Raft.Step.{hup, step_message, hup_message, tick_election, apply_conf_change}
use etcd_cr.Raft.Campaigns.{Campaigned, hup-inverse}

-- What a node promises about its own vote: it is no leader, and as a candidate it votes for itself,
-- in the field that is stored and in the votes that are counted.
pub record OwnVote {S G : Type 0} (r : Raft S G) : Type 0 where
  pub no_leader : is_leader r.state ≡ false
  pub candidate_vote : r.state ≡ state_candidate → r.vote ≡ r.id
  pub candidate_tally : r.state ≡ state_candidate → lookup r.id r.prs.votes ≡ some true

module _ {S G : Type 0} ⦃st : Storage S⦄ ⦃rng : Rand G⦄ where
  -- One step of a node.
  pub data Move (r : Raft S G) : Raft S G → Type 0 where
    stepped : (m : Message) (r' : Raft S G) → step_message r m ≡ ok r' → Move r r'
    ticked : (r' : Raft S G) → tick_election r ≡ ok r' → Move r r'
    reconfigured :
        (cc : ConfChangeV2) (cs : ConfState) (r' : Raft S G)
        → apply_conf_change r cc ≡ ok (cs, r')
        → Move r r'

  -- A run of `n` steps.
  pub data Run (r : Raft S G) : ℕ → Raft S G → Type 0 where
    start : Run r 0 r
    then_move : (n : ℕ) (r' r'' : Raft S G) → Run r n r' → Move r' r'' → Run r (suc n) r''

  -- What one step does to the term and the vote: nothing, or the next term with the node's vote
  -- for itself.
  TermStep : Raft S G → Raft S G → Type 0
  TermStep r r' =
      (r'.id ≡ r.id)
      × ((r'.term ≡ r.term) × (r'.vote ≡ r.vote) ⊎ (r'.term ≡ add64 r.term 1) × (r'.vote ≡ r.id))

  Kept : Raft S G → Raft S G → Type 0
  Kept r r' = TermStep r r' × (OwnVote r → OwnVote r')

  Kept-same : (r r' : Raft S G) → r' ≡ r → Kept r r'
  unfolding Kept TermStep
  Kept-same r r' e = subst (Kept r) (sym e) ((refl, inl (refl, refl)), λ v. v)

  Kept-campaign : (r r' : Raft S G) → Campaigned r r' → Kept r r'
  unfolding Kept TermStep Campaigned is_leader
  Kept-campaign r r' (p, a, l, e) = subst (Kept r) (sym e) (
    (refl, inr (refl, refl)),
    λ _. record {
      no_leader = refl;
      candidate_vote = λ _. refl;
      candidate_tally = λ _. ground arith;
    },
  )

  Kept-hup : (r r' : Raft S G) → hup r ≡ ok r' → Kept r r'
  Kept-hup r r' h = elim (hup-inverse r r' h) [
    | inl same ↦ Kept-same r r' same
    | inr run ↦ Kept-campaign r r' run
  ]

  by_type :
      (t : MessageType) (r r' : Raft S G)
      → elim t [ msg_hup ↦ hup r | _ ↦ ok r ] ≡ ok r'
      → Kept r r'
  by_type msg_hup r r' h = Kept-hup r r' h
  by_type _ r r' h = Kept-same r r' (sym (ok_injective h))

  Kept-step : (r r' : Raft S G) (m : Message) → step_message r m ≡ ok r' → Kept r r'
  unfolding step_message
  Kept-step r r' m h = by_type m.type r r' h

  -- The clock counts, which neither the term nor the votes depend on.
  Kept-elapsed : (r r' : Raft S G) (n : ℕ) → Kept (record r { election_elapsed = n }) r' → Kept r r'
  unfolding Kept TermStep
  Kept-elapsed r r' n ((i, t), own) = (
    (i, t),
    λ v. own (record {
      no_leader = v.no_leader;
      candidate_vote = v.candidate_vote;
      candidate_tally = v.candidate_tally;
    }),
  )

  at_timeout :
      (r r' : Raft S G) (n : ℕ) (due : Bool)
      → (if due
          then step_message (record r { election_elapsed = 0 }) (hup_message r)
          else ok (record r { election_elapsed = n }))
        ≡ ok r'
      → Kept r r'
  at_timeout r r' n true h =
      Kept-elapsed r r' 0 (Kept-step (record r { election_elapsed = 0 }) r' (hup_message r) h)
  at_timeout r r' n false h =
      Kept-elapsed r r' n (Kept-same (record r { election_elapsed = n }) r' (sym (ok_injective h)))

  Kept-tick : (r r' : Raft S G) → tick_election r ≡ ok r' → Kept r r'
  unfolding tick_election
  Kept-tick r r' h =
      let r1 : Raft S G = record r { election_elapsed = r.election_elapsed + 1 } in
      at_timeout r r' (r.election_elapsed + 1) (promotable r1 && past_election_timeout r1) h

  Kept-if :
      (a b c : Bool) (r x y : Raft S G)
      → Kept r x
      → Kept r y
      → Kept r (if a then x else if b then x else if c then y else x)
  Kept-if true b c r x y kx ky = kx
  Kept-if false true c r x y kx ky = kx
  Kept-if false false true r x y kx ky = ky
  Kept-if false false false r x y kx ky = kx

  -- Fields that neither the term nor the votes depend on.
  Kept-fields :
      (r : Raft S G) (cfg : Config) (prs : ProgressMap) (learner : Bool) (transferee : ℕ)
      → Kept r (record r {
        prs = record r.prs { config = cfg; progress = prs };
        is_learner = learner;
        lead_transferee = transferee;
      })
  unfolding Kept TermStep
  Kept-fields r cfg prs learner transferee = (
    (refl, inl (refl, refl)),
    λ v. record {
      no_leader = v.no_leader;
      candidate_vote = v.candidate_vote;
      candidate_tally = v.candidate_tally;
    },
  )

  Kept-switch :
      (r : Raft S G) (cfg : Config) (prs : ProgressMap) → Kept r (switch_to_config r cfg prs).1
  unfolding switch_to_config abort_leader_transfer
  Kept-switch r cfg prs =
      let learner = is_learner_in (lookup r.id prs) in
      Kept-if ((not (is_some (lookup r.id prs)) || learner) && is_leader r.state)
        (not (is_leader r.state)
          || (length (conf_state (record r.prs { config = cfg; progress = prs })).voters == 0))
        (not (is_some (lookup r.lead_transferee prs)) && not (r.lead_transferee == 0)) r _ _
        (Kept-fields r cfg prs learner r.lead_transferee) (Kept-fields r cfg prs learner 0)

  Kept-reconfigured :
      (r r' : Raft S G) (cc : ConfChangeV2) (cs : ConfState)
      → apply_conf_change r cc ≡ ok (cs, r')
      → Kept r r'
  unfolding apply_conf_change
  Kept-reconfigured r r' cc cs h =
      let (last, a, h1) =
        bind_ok (last_index r.raft_log)
          (λ last. do
            (cfg, prs) ← must (simple (record { tracker = r.prs; last_index = last }) cc.changes)
            ok (switch_to_config r cfg prs))
          (cs, r') h in
      let ((cfg, prs), b, h2) =
        bind_ok (must (simple (record { tracker = r.prs; last_index = last }) cc.changes))
          (λ (cfg, prs). ok (switch_to_config r cfg prs)) (cs, r') h1 in
      subst (Kept r) (ap (λ p. p.1) (ok_injective h2)) (Kept-switch r cfg prs)

  Kept-Move : (r r' : Raft S G) → Move r r' → Kept r r'
  Kept-Move r r' (stepped m _ h) = Kept-step r r' m h
  Kept-Move r r' (ticked _ h) = Kept-tick r r' h
  Kept-Move r r' (reconfigured cc cs _ h) = Kept-reconfigured r r' cc cs h

  one_more :
      (r r' r'' : Raft S G) (n : ℕ)
      → r.term + suc n < u64_mod
      → (r'.id ≡ r.id)
        × (r.term ≤ r'.term)
        × (r'.term ≤ r.term + n)
        × (r'.term ≡ r.term → r'.vote ≡ r.vote)
      → TermStep r' r''
      → (r''.id ≡ r.id)
        × (r.term ≤ r''.term)
        × (r''.term ≤ r.term + suc n)
        × (r''.term ≡ r.term → r''.vote ≡ r.vote)
  unfolding TermStep
  one_more r r' r'' n b (i, lo, hi, same) (j, step) = elim step [
    | inl (t, w) ↦ (j ∙ i, omega arith, omega arith, λ e. w ∙ same (omega arith))
    | inr (t, w) ↦
        let t' : r''.term ≡ r'.term + 1 = t ∙ add64-eq r'.term 1 (omega arith) in
        (j ∙ i, omega arith, omega arith, λ e. absurd (omega arith))
  ]

  -- In a run of `n` steps, with room for the term, the term never falls and rises by at most `n`,
  -- the vote does not change as long as the term does not, and the node never becomes a leader
  -- and, as a candidate, has voted for itself, if this holds at the start.
  pub run-OwnVote :
      (r r' : Raft S G) (n : ℕ)
      → Run r n r'
      → r.term + n < u64_mod
      → ((r'.id ≡ r.id)
          × (r.term ≤ r'.term)
          × (r'.term ≤ r.term + n)
          × (r'.term ≡ r.term → r'.vote ≡ r.vote))
        × (OwnVote r → OwnVote r')
  unfolding Kept
  run-OwnVote r r' _ start b = ((refl, omega arith, omega arith, λ e. refl), λ v. v)
  run-OwnVote r r' _ (then_move n mid _ run move) b =
      let (facts, own) = run-OwnVote r mid n run (omega arith) in
      let (step, own') = Kept-Move mid r' move in
      (one_more r mid r' n b facts step, λ v. own' (own v))
