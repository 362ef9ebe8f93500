-- ===== src/RawNode/Joining.antt =====
-- `add_peers`, the loop of `Bootstrap` that applies the membership changes.
use etcd_cr.Common.{
  ℕ, ◌≡◌, ◌≢◌, refl, Bool, true, false, not, ◌||◌, ◌&&◌, ◌==◌, none, List, [], ◌∷◌, arith, ok,
  if◌then◌else◌, length, sym, subst, ◌∙◌, ap,
}
use etcd_cr.Common.Maps.{has, add_id, has-add_id, lookup}
use etcd_cr.Raftpb.{as_v2, add_node}
use etcd_cr.Storage.{Storage}
use etcd_cr.Tracker.{Config, ProgressMap, conf_state}
use etcd_cr.Confchange.{Changer}
use etcd_cr.Confchange.Adding.{plain, AllTracked, added, added-AllTracked, simple-adding}
use etcd_cr.RaftLog.{last_index}
use etcd_cr.Raft.{
  Raft, Rand, is_leader, is_some, is_learner_in, switch_to_config, abort_leader_transfer,
}
use etcd_cr.Raft.Step.{apply_conf_change}
use etcd_cr.RawNode.{Peer, add_peers}

-- What a change of the configuration leaves of a node.
abbrev Switched : {S G : Type 0} → Raft S G → Config → ProgressMap → Raft S G → Type 0
Switched r cfg prs r' =
    (r'.raft_log ≡ r.raft_log)
    × (r'.term ≡ r.term)
    × (r'.state ≡ r.state)
    × (r'.prs ≡ record r.prs { config = cfg; progress = prs })

module _ {S G : Type 0} where
  Switched-if :
      (a b c : Bool) (r x y : Raft S G) (cfg : Config) (prs : ProgressMap)
      → Switched r cfg prs x
      → Switched r cfg prs y
      → Switched r cfg prs (if a then x else if b then x else if c then y else x)
  Switched-if true b c r x y cfg prs p q = p
  Switched-if false true c r x y cfg prs p q = p
  Switched-if false false true r x y cfg prs p q = q
  Switched-if false false false r x y cfg prs p q = p

  switch_to_config-Switched :
      (r : Raft S G) (cfg : Config) (prs : ProgressMap)
      → Switched r cfg prs (switch_to_config r cfg prs).1
  unfolding switch_to_config abort_leader_transfer
  switch_to_config-Switched r cfg prs =
      Switched-if
        ((not (is_some (lookup r.id prs)) || is_learner_in (lookup r.id prs)) && is_leader r.state)
        (not (is_leader r.state)
          || (length (conf_state (record r.prs { config = cfg; progress = prs })).voters == 0))
        (not (is_some (lookup r.lead_transferee prs)) && not (r.lead_transferee == 0)) r _ _ cfg prs
        (refl, refl, refl, refl) (refl, refl, refl, refl)

abbrev pub is_peer : ℕ → List Peer → Bool
is_peer j [] = false
is_peer j (p ∷ peers) = p.id == j || is_peer j peers

abbrev pub NonZero : List Peer → Type 0
NonZero [] = Unit
NonZero (p ∷ peers) = (p.id ≢ 0) × NonZero peers

module _ {S G : Type 0} ⦃st : Storage S⦄ ⦃rng : Rand G⦄ where
  add_one :
      (r : Raft S G) (p : Peer) (xs : List ℕ) (last : ℕ)
      → r.prs.config ≡ plain xs
      → AllTracked xs r.prs.progress
      → last_index r.raft_log ≡ ok last
      → p.id ≢ 0
      → apply_conf_change r
          (as_v2 (record { type = add_node; node_id = p.id; context = none; id = 0 }))
        ≡ ok (
            switch_to_config r
              (plain (add_id p.id xs))
              (added (record { tracker = r.prs; last_index = last }) p.id r.prs.progress))
  unfolding apply_conf_change as_v2
  add_one r p xs last e t l n =
      rw (l, simple-adding (record { tracker = r.prs; last_index = last }) p.id xs n e t) refl

  -- The peers become the voters, beside those that are there.
  pub add_peers-voters :
      (peers : List Peer) (r : Raft S G) (xs : List ℕ) (last : ℕ)
      → r.prs.config ≡ plain xs
      → AllTracked xs r.prs.progress
      → last_index r.raft_log ≡ ok last
      → NonZero peers
      → (r' : Raft S G) × (ys : List ℕ) × (add_peers r peers ≡ ok r')
        × (r'.raft_log ≡ r.raft_log)
        × (r'.term ≡ r.term)
        × (r'.state ≡ r.state)
        × (r'.prs.config ≡ plain ys)
        × AllTracked ys r'.prs.progress
        × ((j : ℕ) → has j ys ≡ (is_peer j peers || has j xs))
  unfolding add_peers
  add_peers-voters [] r xs last e t l n = (r, xs, refl, refl, refl, refl, e, t, λ j. refl)
  add_peers-voters (p ∷ peers) r xs last e t l (n, ns) =
      let c : Changer = record { tracker = r.prs; last_index = last } in
      let zs = add_id p.id xs in
      let prs = added c p.id r.prs.progress in
      let r1 = (switch_to_config r (plain zs) prs).1 in
      let (logs, terms, states, tracks) = switch_to_config-Switched r (plain zs) prs in
      let (r', ys, run, logs', terms', states', cfg, all, who) =
        add_peers-voters peers r1 zs last (ap (λ q. q.config) tracks)
          (subst (AllTracked zs) (ap (λ q. q.progress) (sym tracks))
            (added-AllTracked c p.id xs r.prs.progress t))
          (ap last_index logs ∙ l) ns in
      (
        r',
        ys,
        rw (add_one r p xs last e t l n) run,
        logs' ∙ logs,
        terms' ∙ terms,
        states' ∙ states,
        cfg,
        all,
        λ j. ground (arith, who j, has-add_id p.id j xs),
      )
