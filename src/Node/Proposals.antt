-- ===== src/Node/Proposals.antt =====
-- Proposals to the `run` loop of raft/node.go, which serves `propc` only while it knows a leader.
use etcd_cr.Common.{
  ℕ, ◌+◌, ◌≡◌, ◌⊎◌, inl, inr, sym, ap, ap₂, subst, ◌∙◌, Bool, true, false, ◌&&◌, Option, none, some,
  arith, ◌==◌, if◌then◌else◌, ok, panic, ◌>>=◌, bind_ok, ok_injective, ==_iff, Bool-cases,
}
use etcd_cr.Common.Maps.{lookup, lookup-insert_other, lookup-delete_other}
use etcd_cr.Raftpb.{Message}
use etcd_cr.Storage.{Storage}
use etcd_cr.Raft.{Raft, Rand, promotable, past_election_timeout, TickFunc, tick_by_election}
use etcd_cr.Raft.Step.{hup, tick_election, step_message}
use etcd_cr.Raft.Campaigns.{Campaigned, hup-inverse}
use etcd_cr.RawNode.{RawNode, tick}
use etcd_cr.Node.Ticks.{tick_in-cases, looked, before_select-looked, receive_tick-inverse}
use etcd_cr.Node.{
  Node, proposal, tick_in, propose, give_up, Step, Reached, timer_ticked, proposed, gave_up,
  ran_tick, ran_proposal, at_start, after,
}

module _ {S G : Type 0} ⦃st : Storage S⦄ ⦃rng : Rand G⦄ where
  lead-hup : (r r' : Raft S G) → r.lead ≡ 0 → hup r ≡ ok r' → r'.lead ≡ 0
  unfolding Campaigned
  lead-hup r r' z h = elim (hup-inverse r r' h) [
    | inl same ↦ ap (λ r. r.lead) same ∙ z
    | inr run ↦ ap (λ r. r.lead) run.3
  ]

  -- Without a leader, a tick brings none.
  lead-tick_election : (r r' : Raft S G) → r.lead ≡ 0 → tick_election r ≡ ok r' → r'.lead ≡ 0
  unfolding tick_election step_message promotable
  lead-tick_election r r' z h =
      branch
        (promotable r
          && past_election_timeout (record r { election_elapsed = r.election_elapsed + 1 }))
        h
    where
      branch :
          (due : Bool)
          → (if due
              then hup (record r { election_elapsed = 0 })
              else ok (record r { election_elapsed = r.election_elapsed + 1 }))
            ≡ ok r'
          → r'.lead ≡ 0
      branch true run = lead-hup (record r { election_elapsed = 0 }) r' z run
      branch false run = ap {A = Raft S G} (λ r. r.lead) (sym (ok_injective run)) ∙ z

  -- `run` knows no leader, and does not serve `propc`.
  pub record Leaderless (n : Node S G) : Type 0 where
    pub raft_lead : n.rn.raft.lead ≡ 0
    pub lead : n.lead ≡ 0
    pub closed : n.serves ≡ false

  looked-Leaderless : (n : Node S G) → Leaderless n → looked (n.lead == n.rn.raft.lead) n ≡ n
  looked-Leaderless n l = ap (λ b. looked b n) (ap₂ ◌==◌ l.lead l.raft_lead)

  lead-tick : (rn rn' : RawNode S G) → rn.raft.lead ≡ 0 → tick rn ≡ ok rn' → rn'.raft.lead ≡ 0
  unfolding tick
  lead-tick rn rn' z h = by_tick rn.raft.tick h
    where
      by_tick :
          (t : Option TickFunc)
          → elim t [
            | none ↦ panic
            | some tick_by_election ↦ (do r ← tick_election rn.raft; ok (record rn { raft = r }))
          ]
            ≡ ok rn'
          → rn'.raft.lead ≡ 0
      by_tick none h = cc
      by_tick (some tick_by_election) h =
          let (r, e, f) =
            bind_ok (tick_election rn.raft) (λ r. ok (record rn { raft = r })) rn' h in
          ap {A = RawNode S G} (λ n. n.raft.lead) (sym (ok_injective f))
          ∙ lead-tick_election rn.raft r z e

  Step-Leaderless : (n n' : Node S G) → Leaderless n → Step n n' → Leaderless n'
  unfolding tick_in propose give_up
  Step-Leaderless n _ l timer_ticked = elim (tick_in-cases n) [
    | inl (_, e) ↦
        subst Leaderless (sym e)
          (record { raft_lead = l.raft_lead; lead = l.lead; closed = l.closed })
    | inr e ↦ subst Leaderless (sym e) l
  ]
  Step-Leaderless n _ l (proposed call bytes free) = record {
    raft_lead = l.raft_lead;
    lead = l.lead;
    closed = l.closed;
  }
  Step-Leaderless n _ l (gave_up call) = record {
    raft_lead = l.raft_lead;
    lead = l.lead;
    closed = l.closed;
  }
  Step-Leaderless n n' l (ran_tick n1 _ looks some_tick ran) =
      let (rn, e, f) = receive_tick-inverse n1 n' ran in
      let same = before_select-looked n n1 looks ∙ looked-Leaderless n l in
      let l1 = subst Leaderless (sym same) l in
      subst Leaderless (sym f) (record {
        raft_lead = lead-tick n1.rn rn l1.raft_lead e;
        lead = l1.lead;
        closed = l1.closed;
      })
  Step-Leaderless n n' l (ran_proposal call m n1 _ looks serves waits ran) =
      let same = before_select-looked n n1 looks ∙ looked-Leaderless n l in
      let l1 = subst Leaderless (sym same) l in let shut = l1.closed in absurd (ground arith)

  Leaderless-reached : (first n : Node S G) → Leaderless first → Reached first n → Leaderless n
  Leaderless-reached first _ l at_start = l
  Leaderless-reached first _ l (after n n' r step) =
      Step-Leaderless n n' (Leaderless-reached first n l r) step

  -- A node that starts without a leader never serves a proposal: whatever it does next, a call of
  -- `Propose` that waits goes on waiting, until its own context is done.
  pub propose-waits :
      (first n n' : Node S G) (call : ℕ) (m : Message)
      → Leaderless first
      → Reached first n
      → lookup call n.calls ≡ some m
      → Step n n'
      → (lookup call n'.calls ≡ some m) ⊎ (n' ≡ give_up call n)
  unfolding propose give_up
  propose-waits first n _ call m l r w timer_ticked = elim (tick_in-cases n) [
    | inl (_, e) ↦ inl (ap (λ n. lookup call n.calls) e ∙ w)
    | inr e ↦ inl (ap (λ n. lookup call n.calls) e ∙ w)
  ]
  propose-waits first n _ call m l r w (proposed other bytes free) = inl (
      lookup-insert_other other call (proposal bytes) n.calls
        (λ e. let taken = ap (λ c. lookup c n.calls) e in cc)
      ∙ w)
  propose-waits first n _ call m l r w (gave_up other) = elim (Bool-cases (other == call)) [
    | inl same ↦ inr (ap (λ c. give_up c n) ((==_iff other call).0 same))
    | inr differs ↦ inl (lookup-delete_other other call n.calls (λ e. ground arith) ∙ w)
  ]
  propose-waits first n n' call m l r w (ran_tick n1 _ looks some_tick ran) =
      let (rn, e, f) = receive_tick-inverse n1 n' ran in
      let same =
        before_select-looked n n1 looks ∙ looked-Leaderless n (Leaderless-reached first n l r) in
      inl (
        ap {A = Node S G} (λ n. lookup call n.calls) f
        ∙ ap {A = Node S G} (λ n. lookup call n.calls) same
        ∙ w)
  propose-waits first n n' call m l r w (ran_proposal other sent n1 _ looks serves waits ran) =
      let now = Leaderless-reached first n l r in
      let same = before_select-looked n n1 looks ∙ looked-Leaderless n now in
      let shut = (subst Leaderless (sym same) now).closed in absurd (ground arith)
