-- ===== src/RawNode/Bootstrapped.antt =====
-- `Bootstrap` of a new node.
use etcd_cr.Common.{
  ℕ, suc, ◌+◌, ◌<◌, ◌≡◌, refl, true, false, ◌==◌, ltb, some, List, [], ◌∷◌, arith, ok, length, sym,
  subst, ◌∙◌, ap, u64_mod,
}
use etcd_cr.Common.Maps.{has}
use etcd_cr.Raftpb.{Entry, add_node, entry_conf_change}
use etcd_cr.Raftpb.Marshal.{marshal_conf_change}
use etcd_cr.Storage.{Storage}
use etcd_cr.Storage.Laws.{StorageLaws}
use etcd_cr.Entries.{Consecutive, overwrite}
use etcd_cr.Confchange.Adding.{plain, AllTracked}
use etcd_cr.RaftLog.{RaftLog, last_index, append}
use etcd_cr.RaftLog.View.{IsValid, start, view, last_index-eq, length-view}
use etcd_cr.RaftLog.Appends.{append-overwrite}
use etcd_cr.Raft.{Raft, Rand, state_follower, step_follower, tick_by_election}
use etcd_cr.Raft.Roles.{reset_progress, become_follower}
use etcd_cr.Raft.Resets.{reset_to, reset-eq}
use etcd_cr.RawNode.{RawNode, Peer, bootstrap, bootstrap_entries, add_peers, empty_state}
use etcd_cr.RawNode.Joining.{is_peer, NonZero, add_peers-voters}

bootstrap_entries-Consecutive :
    (i : ℕ) (peers : List Peer) → Consecutive i (bootstrap_entries i peers)
unfolding bootstrap_entries
bootstrap_entries-Consecutive i [] = tt
bootstrap_entries-Consecutive i (p ∷ peers) = (
  refl,
  subst (λ k. Consecutive k (bootstrap_entries (i + 1) peers)) (omega arith)
      (bootstrap_entries-Consecutive (i + 1) peers),
)

length-bootstrap_entries :
    (i : ℕ) (peers : List Peer) → length (bootstrap_entries i peers) ≡ length peers
unfolding bootstrap_entries
length-bootstrap_entries i [] = refl
length-bootstrap_entries i (p ∷ peers) = ap suc (length-bootstrap_entries (i + 1) peers)

module _ {S G : Type 0} ⦃st : Storage S⦄ ⦃rng : Rand G⦄ (laws : StorageLaws S) (rn : RawNode S G)
    (v : IsValid laws rn.raft.raft_log) (fresh : rn.raft.raft_log.committed ≡ 0)
    (empty : st.last_index rn.raft.raft_log.storage ≡ ok 0) (timeout : 0 < rn.raft.election_timeout)
    (no_voters : rn.raft.prs.config ≡ plain []) (no_progress : rn.raft.prs.progress ≡ []) (p : Peer)
    (ps : List Peer) (named : NonZero (p ∷ ps)) (fits : length (p ∷ ps) + 2 < u64_mod) where
  abbrev peers : List Peer
  peers = p ∷ ps

  abbrev follower : Raft S G
  follower = record (reset_to (record rn.raft { step = some step_follower }) 1 []) {
    tick = some tick_by_election;
    lead = 0;
    state = state_follower;
  }

  become_follower-eq : become_follower rn.raft 1 0 ≡ ok follower
  unfolding become_follower reset_progress
  become_follower-eq =
      let t : ltb 0 rn.raft.election_timeout ≡ true = ground arith in
      rw (reset-eq (record rn.raft { step = some step_follower }) 1 t, no_progress) refl

  -- The log with the entries of `Bootstrap`, committed to its end.
  Logged : RaftLog S → Type 0
  Logged l =
      (v' : IsValid laws l) × (view laws l v' ≡ bootstrap_entries 1 peers)
      × ((start laws l v').index ≡ 0)
      × (l.committed ≡ length peers)
      × (last_index l ≡ ok (length peers))

  zero_start : (start laws rn.raft.raft_log v).index ≡ 0
  zero_start = omega (arith, v.start_le, v.applied_le, fresh)

  abbrev first : Entry
  first = record {
    term = 1;
    index = 1;
    type = entry_conf_change;
    bytes = some (
        marshal_conf_change
          (record { type = add_node; node_id = p.id; context = p.context; id = 0 }));
  }

  appended :
      (l : RaftLog S) × (i : ℕ) × (append rn.raft.raft_log (bootstrap_entries 1 peers) ≡ ok (l, i))
      × Logged (record l { committed = length peers })
  unfolding bootstrap_entries Logged
  appended =
      let es = bootstrap_entries 2 ps in
      let len : length es ≡ length ps = length-bootstrap_entries 2 ps in
      let run : Consecutive 1 (first ∷ es) = bootstrap_entries-Consecutive 1 peers in
      let (l, w, done, starts, views, comm, app) =
        append-overwrite laws rn.raft.raft_log v first es run (omega (arith, len)) (omega arith)
          (omega (arith, v.committed_lt)) in
      let zero : (start laws l w).index ≡ 0 = ap (λ e. e.index) starts ∙ zero_start in
      let entries : view laws l w ≡ first ∷ es =
        views ∙ ap (λ b. overwrite b (view laws rn.raft.raft_log v) 1 (first ∷ es)) zero_start in
      let count : length (view laws l w) ≡ suc (length ps) = ap length entries ∙ ap suc len in
      let done_l : RaftLog S = record l { committed = length peers } in
      let w' : IsValid laws done_l = record {
        stored = w.stored;
        unstable_valid = w.unstable_valid;
        joined = w.joined;
        settled = w.settled;
        start_le = w.start_le;
        applied_le = omega (arith, app, v.applied_le, fresh);
        committed_lt = omega (arith, length-view laws l w, zero, count);
      } in
      (
        l,
        1 + length es,
        done,
        (
          w',
          entries,
          zero,
          refl,
          last_index-eq laws done_l w' ∙ ap ok (omega (arith, zero, count)),
        ),
      )

  bootstrap-steps :
      (l : RaftLog S) (i : ℕ) (r' : Raft S G)
      → append rn.raft.raft_log (bootstrap_entries 1 peers) ≡ ok (l, i)
      → add_peers (record follower { raft_log = record l { committed = length peers } }) peers
        ≡ ok r'
      → bootstrap rn peers ≡ ok (record rn { raft = r'; prev_hard_st = empty_state })
  unfolding bootstrap
  bootstrap-steps l i r' done run =
      let some_peers : (suc (length ps) == 0) ≡ false = ground arith in
      rw (some_peers, empty, become_follower-eq, done, run) refl

  -- `Bootstrap` of a new node with an empty log, no peers and a positive election timeout, given at
  -- least one peer and none with the id 0, fewer than 2^64 - 2: it succeeds. The node is then a
  -- follower of term 1, whose log has a committed entry for each peer in turn and nothing else,
  -- and whose voters are just the peers, each with a progress.
  pub bootstrap-voters :
      (rn' : RawNode S G) × (xs : List ℕ) × (bootstrap rn peers ≡ ok rn')
      × (rn'.raft.term ≡ 1)
      × (rn'.raft.state ≡ state_follower)
      × ((v' : IsValid laws rn'.raft.raft_log) × (view laws rn'.raft.raft_log v'
            ≡ bootstrap_entries 1 peers)
          × ((start laws rn'.raft.raft_log v').index ≡ 0)
          × (rn'.raft.raft_log.committed ≡ length peers))
      × (rn'.raft.prs.config ≡ plain xs)
      × AllTracked xs rn'.raft.prs.progress
      × ((j : ℕ) → has j xs ≡ is_peer j peers)
  unfolding Logged
  bootstrap-voters =
      let (l, i, done, (w, entries, zero, comm, last)) = appended in
      let r : Raft S G = record follower { raft_log = record l { committed = length peers } } in
      let (r', ys, run, logs, terms, states, cfg, all, who) =
        add_peers-voters peers r [] (length peers) no_voters (λ id m. cc) last named in
      let rn' : RawNode S G = record rn { raft = r'; prev_hard_st = empty_state } in
      (
        rn',
        ys,
        bootstrap-steps l i r' done run,
        terms,
        states,
        subst
            (λ l.
              (v' : IsValid laws l) × (view laws l v' ≡ bootstrap_entries 1 peers)
              × ((start laws l v').index ≡ 0)
              × (l.committed ≡ length peers))
            (sym logs) (w, entries, zero, comm),
        cfg,
        all,
        λ j. ground (arith, who j),
      )
