-- ===== src/RawNode.antt =====
-- raft/rawnode.go, raft/bootstrap.go, and the `Ready` of raft/node.go: the work that a raft node
-- hands to its application, and the first start of a node.
pub mod Readiness
pub mod Joining
pub mod Bootstrapped
use etcd_cr.Common.{
  ℕ, ◌+◌, Bool, true, false, ◌&&◌, ◌||◌, not, Option, none, some, List, [], ◌∷◌, ltb, ◌==◌,
  if◌then◌else◌, length, Result, ok, err, panic, ◌>>=◌, ◌>>◌, assert, no_peers, nonempty_storage,
  must,
}
use etcd_cr.Raftpb.{
  Entry, Message, HardState, Snapshot, ConfState, ConfChange, add_node, entry_conf_change, as_v2,
  zero_snapshot,
}
use etcd_cr.Raftpb.Marshal.{marshal_conf_change}
use etcd_cr.Storage.{Storage}
use etcd_cr.RaftLog.{next_ents, has_next_ents, unstable_entries, append}
use etcd_cr.Raft.{
  Raft, StartConfig, StateType, SoftState, ReadState, Rand, state_follower, state_candidate,
  state_leader, state_pre_candidate, tick_by_election, soft_state, hard_state,
}
use etcd_cr.Raft.Roles.{become_follower}
use etcd_cr.Raft.Step.{tick_election, apply_conf_change, new_raft}

-- `emptyState`
abbrev pub empty_state : HardState
empty_state = record { term = 0; vote = 0; commit = 0 }

abbrev pub state_number : StateType → ℕ
state_number state_follower = 0
state_number state_candidate = 1
state_number state_leader = 2
state_number state_pre_candidate = 3

-- `(*SoftState).equal`
abbrev pub equal : SoftState → SoftState → Bool
equal a b = a.lead == b.lead && state_number a.raft_state == state_number b.raft_state

abbrev pub is_hard_state_equal : HardState → HardState → Bool
is_hard_state_equal a b = a.term == b.term && a.vote == b.vote && a.commit == b.commit

abbrev pub is_empty_hard_state : HardState → Bool
is_empty_hard_state st = is_hard_state_equal st empty_state

abbrev pub is_empty_snap : Snapshot → Bool
is_empty_snap sp = sp.metadata.index == 0

-- `MustSync`
abbrev pub must_sync : HardState → HardState → ℕ → Bool
must_sync st prevst entsnum =
    not (entsnum == 0) || not (st.vote == prevst.vote) || not (st.term == prevst.term)

-- `Ready`; the embedded `*SoftState` may be nil.
pub record Ready : Type 0 where
  pub soft : Option SoftState
  pub hard : HardState
  pub read_states : List ReadState
  pub entries : List Entry
  pub snapshot : Snapshot
  pub committed_entries : List Entry
  pub messages : List Message
  pub must_sync : Bool

pub record Peer : Type 0 where
  pub id : ℕ
  pub context : Option (List ℕ)

pub record RawNode (S G : Type 0) : Type 0 where
  pub raft : Raft S G
  pub prev_soft_st : SoftState
  pub prev_hard_st : HardState

abbrev pub snapshot_or_zero : Option Snapshot → Snapshot
snapshot_or_zero none = zero_snapshot
snapshot_or_zero (some s) = s

abbrev pub full_snapshot : Option Snapshot → Bool
full_snapshot none = false
full_snapshot (some s) = not (is_empty_snap s)

module _ {S G : Type 0} ⦃st : Storage S⦄ where
  -- `newReady`
  unfoldable pub new_ready : Raft S G → SoftState → HardState → Result Ready
  new_ready r prev_soft_st prev_hard_st = do
    committed ← next_ents r.raft_log
    ok (record {
      soft = if equal (soft_state r) prev_soft_st then none else some (soft_state r);
      hard = if is_hard_state_equal (hard_state r) prev_hard_st then empty_state else hard_state r;
      read_states = r.read_states;
      entries = unstable_entries r.raft_log;
      snapshot = snapshot_or_zero r.raft_log.unstable.snapshot;
      committed_entries = committed;
      messages = r.msgs;
      must_sync = must_sync (hard_state r) prev_hard_st (length (unstable_entries r.raft_log));
    })

  module _ (rn : RawNode S G) where
    open rn use {raft, prev_soft_st, prev_hard_st}

    -- `readyWithoutAccept`
    unfoldable pub ready_without_accept : Result Ready
    unfolding new_ready
    ready_without_accept = new_ready raft prev_soft_st prev_hard_st

    -- `acceptReady`
    unfoldable pub accept_ready : Ready → RawNode S G
    accept_ready rd = record rn {
      prev_soft_st = elim rd.soft [ none ↦ prev_soft_st | some s ↦ s ];
      raft = record raft {
        read_states = if length rd.read_states == 0 then raft.read_states else [];
        msgs = [];
      };
    }

    -- `Ready`
    unfoldable pub ready : Result (Ready × RawNode S G)
    ready = do rd ← ready_without_accept; ok (rd, accept_ready rd)

    -- `HasReady`
    unfoldable pub has_ready : Result Bool
    has_ready =
        if not (equal (soft_state raft) prev_soft_st)
        then ok true
        else if not (is_empty_hard_state (hard_state raft))
            && not (is_hard_state_equal (hard_state raft) prev_hard_st)
        then ok true
        else if full_snapshot raft.raft_log.unstable.snapshot
        then ok true
        else if ltb 0 (length raft.msgs) || ltb 0 (length (unstable_entries raft.raft_log))
        then ok true
        else (do
          next ← has_next_ents raft.raft_log
          ok (next || not (length raft.read_states == 0)))

-- The entries of `Bootstrap`, from index `i` on. `Marshal` returns no error.
unfoldable pub bootstrap_entries : ℕ → List Peer → List Entry
bootstrap_entries i [] = []
bootstrap_entries i (p ∷ peers) =
    record {
      term = 1;
      index = i;
      type = entry_conf_change;
      bytes = some (
          marshal_conf_change
            (record { type = add_node; node_id = p.id; context = p.context; id = 0 }));
    }
    ∷ bootstrap_entries (i + 1) peers

module _ {S G : Type 0} ⦃st : Storage S⦄ ⦃rng : Rand G⦄ where
  -- `NewRawNode`
  unfoldable pub new_raw_node : StartConfig S → G → Result (RawNode S G)
  new_raw_node c g = do
    assert (not (c.id == 0))
    r ← new_raft c g
    ok (record { raft = r; prev_soft_st = soft_state r; prev_hard_st = hard_state r })

  -- `Tick`: a call of the function that `tick` is set to.
  unfoldable pub tick : RawNode S G → Result (RawNode S G)
  tick rn = elim rn.raft.tick [
    | none ↦ panic
    | some tick_by_election ↦ do r ← tick_election rn.raft; ok (record rn { raft = r })
  ]

  unfoldable pub add_peers : Raft S G → List Peer → Result (Raft S G)
  add_peers r [] = ok r
  add_peers r (p ∷ peers) = do
    (cs, r') ←
        apply_conf_change r
          (as_v2 (record { type = add_node; node_id = p.id; context = none; id = 0 }))
    add_peers r' peers

  -- `Bootstrap`
  unfoldable pub bootstrap : RawNode S G → List Peer → Result (RawNode S G)
  bootstrap rn peers = do
    if length peers == 0 then err no_peers else ok tt
    last ← st.last_index rn.raft.raft_log.storage
    if not (last == 0) then err nonempty_storage else ok tt
    r ← become_follower rn.raft 1 0
    (l, i) ← append r.raft_log (bootstrap_entries 1 peers)
    r' ← add_peers (record r { raft_log = record l { committed = length peers } }) peers
    ok (record rn { raft = r'; prev_hard_st = empty_state })
