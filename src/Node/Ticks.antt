-- ===== src/Node/Ticks.antt =====
-- The ticks of raft/node.go, and `advanceTicks` of etcdserver/raft.go.
use etcd_cr.Common.{
  ℕ, zero, suc, ◌+◌, ◌-◌, ◌≤◌, ◌<◌, ◌≡◌, ◌⊎◌, refl, ap, ◌∙◌, min, arith, ltb, ◌==◌, if◌then◌else◌,
  Bool, true, false, ok, bind_ok, ok_injective, sym, Bool-cases, inl, inr, ltb→lt,
}
use etcd_cr.Storage.{Storage}
use etcd_cr.Raft.{Rand, has_leader}
use etcd_cr.Common.Maps.{delete}
use etcd_cr.Raft.Step.{step_message}
use etcd_cr.RawNode.{RawNode, tick, has_ready}
use etcd_cr.Node.{
  Node, tick_in, propose, give_up, new_node, before_select, receive_tick, receive_proposal, Step,
  Reached, timer_ticked, proposed, gave_up, ran_tick, ran_proposal, at_start, after,
}

module _ {S G : Type 0} where
  -- `(*raftNode).advanceTicks`: `ticks` calls of `Tick`.
  unfoldable pub advance_ticks : ℕ → Node S G → Node S G
  advance_ticks zero n = n
  advance_ticks (suc ticks) n = advance_ticks ticks (tick_in n)

  pub tick_in-cases :
      (n : Node S G)
      → ((n.tickc < 128) × (tick_in n ≡ record n { tickc = n.tickc + 1 })) ⊎ (tick_in n ≡ n)
  unfolding tick_in
  tick_in-cases n = elim (Bool-cases (ltb n.tickc 128)) [
    | inl room ↦ inl (ltb→lt n.tickc 128 room, rw (room, tick_in) refl)
    | inr full ↦ inr (rw (full, tick_in) refl)
  ]

  -- `advanceTicks` leaves that many more ticks in the buffer, up to the 128 that it holds, and
  -- changes nothing else; the ticks past these are lost.
  pub advance_ticks-tickc :
      (ticks : ℕ) (n : Node S G)
      → n.tickc ≤ 128
      → advance_ticks ticks n ≡ record n { tickc = min 128 (n.tickc + ticks) }
  unfolding advance_ticks tick_in
  advance_ticks-tickc zero n h =
      let same : n.tickc ≡ min 128 (n.tickc + 0) = omega arith in
      ap {A = ℕ} (λ t. record n { tickc = t }) same
  advance_ticks-tickc (suc ticks) n h = elim (Bool-cases (ltb n.tickc 128)) [
    | inl room ↦
        let lt = ltb→lt n.tickc 128 room in
        rw (room, tick_in)
          (advance_ticks-tickc ticks (record n { tickc = n.tickc + 1 }) (omega arith)
            ∙ ap {A = ℕ} (λ t. record n { tickc = t }) (omega arith))
    | inr full ↦
        rw (full, tick_in)
          (advance_ticks-tickc ticks n h
            ∙ ap {A = ℕ} (λ t. record n { tickc = t })
                (let ge : 128 ≤ n.tickc = ground arith in omega arith))
  ]

module _ {S G : Type 0} ⦃st : Storage S⦄ ⦃rng : Rand G⦄ where
  -- The node that `run` selects with.
  abbrev pub looked : Bool → Node S G → Node S G
  looked true n = n
  looked false n = record n { serves = has_leader n.rn.raft; lead = n.rn.raft.lead }

  looked_if :
      (same : Bool) (n : Node S G)
      → (if same then n else record n { serves = has_leader n.rn.raft; lead = n.rn.raft.lead })
        ≡ looked same n
  looked_if true n = refl
  looked_if false n = refl

  pub before_select-looked :
      (n n1 : Node S G) → before_select n ≡ ok n1 → n1 ≡ looked (n.lead == n.rn.raft.lead) n
  unfolding before_select
  before_select-looked n n1 h =
      let (b, e, f) =
        bind_ok (has_ready n.rn)
          (λ _. ok (
            if n.lead == n.rn.raft.lead
            then n
            else record n { serves = has_leader n.rn.raft; lead = n.rn.raft.lead }))
          n1 h in
      sym (ok_injective f) ∙ looked_if (n.lead == n.rn.raft.lead) n

  tickc-looked : (same : Bool) (n : Node S G) → (looked same n).tickc ≡ n.tickc
  tickc-looked true n = refl
  tickc-looked false n = refl

  pub receive_tick-inverse :
      (n n1 : Node S G)
      → receive_tick n ≡ ok n1
      → (rn : RawNode S G) × (tick n.rn ≡ ok rn) × (n1 ≡ record n { rn = rn; tickc = n.tickc - 1 })
  unfolding receive_tick
  receive_tick-inverse n n1 h =
      let (rn, e, f) =
        bind_ok (tick n.rn) (λ rn. ok (record n { rn = rn; tickc = n.tickc - 1 })) n1 h in
      (rn, e, sym (ok_injective f))

  tickc-Step : (n n' : Node S G) → Step n n' → n.tickc ≤ 128 → n'.tickc ≤ 128
  unfolding tick_in propose give_up receive_proposal
  tickc-Step n _ timer_ticked h = elim (tick_in-cases n) [
    | inl (room, e) ↦ omega (arith, ap (λ n. n.tickc) e)
    | inr e ↦ omega (arith, ap (λ n. n.tickc) e)
  ]
  tickc-Step n _ (proposed call bytes free) h = h
  tickc-Step n _ (gave_up call) h = h
  tickc-Step n n' (ran_tick n1 _ looks some_tick ran) h =
      let (rn, e, f) = receive_tick-inverse n1 n' ran in
      omega (
        arith,
        ap (λ n. n.tickc) f,
        ap (λ n. n.tickc) (before_select-looked n n1 looks),
        tickc-looked (n.lead == n.rn.raft.lead) n,
      )
  tickc-Step n n' (ran_proposal call m n1 _ looks serves waits ran) h =
      let (r, e, f) =
        bind_ok (step_message n1.rn.raft (record m { from = n1.rn.raft.id }))
          (λ r. ok (record n1 { rn = record n1.rn { raft = r }; calls = delete call n1.calls })) n'
          ran in
      omega (
        arith,
        ap (λ n. n.tickc) (ok_injective f),
        ap (λ n. n.tickc) (before_select-looked n n1 looks),
        tickc-looked (n.lead == n.rn.raft.lead) n,
      )

  -- The buffer of `tickc` never holds more than its 128 ticks.
  tickc-reached : (rn : RawNode S G) (n : Node S G) → Reached (new_node rn) n → n.tickc ≤ 128
  unfolding new_node
  tickc-reached rn _ at_start = omega arith
  tickc-reached rn _ (after n n' r step) = tickc-Step n n' step (tickc-reached rn n r)
