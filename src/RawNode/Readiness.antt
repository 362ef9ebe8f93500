-- ===== src/RawNode/Readiness.antt =====
-- When a node has work for its application, and what is left after the work was taken.
use etcd_cr.Common.{
  ℕ, ◌≡◌, inl, inr, refl, sym, ap, ◌∙◌, Bool, true, false, not, ◌||◌, ◌&&◌, Option, none, some,
  List, [], ◌∷◌, arith, ltb, ◌==◌, length, if◌then◌else◌, Result, ok, ◌>>=◌, bind_ok, ok_injective,
  Bool-cases,
}
use etcd_cr.Raftpb.{Entry, HardState, Snapshot}
use etcd_cr.Storage.{Storage}
use etcd_cr.Util.{limit_size}
use etcd_cr.Storage.Laws.{StorageLaws}
use etcd_cr.RaftLog.{next_ents, has_next_ents, unstable_entries}
use etcd_cr.RaftLog.View.{IsValid}
use etcd_cr.RaftLog.Slices.{unapplied, next_ents-unapplied, has_next_ents-next_ents}
use etcd_cr.Raft.{SoftState, ReadState, soft_state, hard_state}
use etcd_cr.RawNode.{
  RawNode, Ready, ready_without_accept, new_ready, accept_ready, ready, has_ready, equal,
  is_empty_hard_state, is_hard_state_equal, is_empty_snap, empty_state, must_sync, full_snapshot,
  snapshot_or_zero,
}

abbrev is_some {ℓ} : {A : Type ℓ} → Option A → Bool
is_some none = false
is_some (some _) = true

-- A `Ready` with something to do in it.
abbrev pub has_content : Ready → Bool
has_content rd =
    is_some rd.soft
    || not (is_empty_hard_state rd.hard)
    || not (is_empty_snap rd.snapshot)
    || not (length rd.messages == 0)
    || not (length rd.entries == 0)
    || not (length rd.committed_entries == 0)
    || not (length rd.read_states == 0)

some_unless : {A : Type 0} (b : Bool) (a : A) → is_some (if b then none else some a) ≡ not b
some_unless true a = refl
some_unless false a = refl

kept_empty :
    (b : Bool) (h : HardState)
    → not (is_empty_hard_state (if b then empty_state else h))
      ≡ (not (is_empty_hard_state h) && not b)
kept_empty true h = ground arith
kept_empty false h = ground arith

full_snapshot-eq :
    (s : Option Snapshot) → not (is_empty_snap (snapshot_or_zero s)) ≡ full_snapshot s
full_snapshot-eq none = refl
full_snapshot-eq (some s) = refl

-- The tests of `HasReady` as one.
any_of :
    (a b c d e : Bool) (next : Result Bool) (f g : Bool)
    → next ≡ ok f
    → (if a
        then ok true
        else if b
        then ok true
        else if c
        then ok true
        else if d || e
        then ok true
        else (do n ← next; ok (n || g)))
      ≡ ok (a || b || c || d || e || f || g)
any_of a b c d e next f g h = rw h (ground arith)

positive-eq : (n : ℕ) → ltb 0 n ≡ not (n == 0)
positive-eq n = ground arith

all_same :
    (a b c d e f g a' b' c' d' e' : Bool)
    → a' ≡ a
    → b' ≡ b
    → c' ≡ c
    → d ≡ d'
    → e ≡ e'
    → (a || b || c || d || e || f || g) ≡ (a' || b' || c' || d' || e' || f || g)
all_same a b c d e f g a' b' c' d' e' p q r s t = rw (p, q, r, s, t) refl

module _ {S G : Type 0} ⦃st : Storage S⦄ (rn : RawNode S G) where
  -- The `Ready` of the node, with the entries to apply.
  abbrev ready_with : List Entry → Ready
  ready_with ents = record {
    soft = if equal (soft_state rn.raft) rn.prev_soft_st then none else some (soft_state rn.raft);
    hard =
        if is_hard_state_equal (hard_state rn.raft) rn.prev_hard_st
        then empty_state
        else hard_state rn.raft;
    read_states = rn.raft.read_states;
    entries = unstable_entries rn.raft.raft_log;
    snapshot = snapshot_or_zero rn.raft.raft_log.unstable.snapshot;
    committed_entries = ents;
    messages = rn.raft.msgs;
    must_sync =
        must_sync (hard_state rn.raft) rn.prev_hard_st (length (unstable_entries rn.raft.raft_log));
  }

  -- `HasReady` tells whether the `Ready` has content, as far as `hasNextEnts` tells whether
  -- `nextEnts` returns entries.
  has_ready-has_content :
      (ents : List Entry)
      → next_ents rn.raft.raft_log ≡ ok ents
      → has_next_ents rn.raft.raft_log ≡ ok (not (length ents == 0))
      → (ready_without_accept rn ≡ ok (ready_with ents))
        × (has_ready rn ≡ ok (has_content (ready_with ents)))
  unfolding ready_without_accept new_ready has_ready
  has_ready-has_content ents e f =
      let soft_same = equal (soft_state rn.raft) rn.prev_soft_st in
      let hard_same = is_hard_state_equal (hard_state rn.raft) rn.prev_hard_st in
      let snap = rn.raft.raft_log.unstable.snapshot in
      let msgs = length rn.raft.msgs in
      let fresh = length (unstable_entries rn.raft.raft_log) in
      (
        rw e refl,
        any_of (not soft_same) (not (is_empty_hard_state (hard_state rn.raft)) && not hard_same)
              (full_snapshot snap) (ltb 0 msgs) (ltb 0 fresh) (has_next_ents rn.raft.raft_log)
              (not (length ents == 0)) (not (length rn.raft.read_states == 0)) f
            ∙ ap ok (
                all_same _ _ _ _ _ (not (length ents == 0)) (not (length rn.raft.read_states == 0))
                  _ _ _ _ _ (some_unless soft_same (soft_state rn.raft))
                  (kept_empty hard_same (hard_state rn.raft)) (full_snapshot-eq snap)
                  (positive-eq msgs) (positive-eq fresh)),
      )

module _ {S G : Type 0} ⦃st : Storage S⦄ (laws : StorageLaws S) (rn : RawNode S G)
    (v : IsValid laws rn.raft.raft_log) where
  -- On a node with a valid log, the `Ready` can be built, its committed entries are those that are
  -- not applied yet, cut to the log's limit, and `HasReady` tells whether it has content.
  pub has_ready-eq :
      (rd : Ready) × (ready_without_accept rn ≡ ok rd)
      × (rd.committed_entries
          ≡ limit_size (unapplied laws rn.raft.raft_log v) rn.raft.raft_log.max_next_ents_size)
      × (has_ready rn ≡ ok (has_content rd))
  has_ready-eq =
      let (e, f) = next_ents-unapplied laws rn.raft.raft_log v in
      let ents =
        limit_size (unapplied laws rn.raft.raft_log v) rn.raft.raft_log.max_next_ents_size in
      let (a, b) =
        has_ready-has_content rn ents e (has_next_ents-next_ents laws rn.raft.raft_log v) in
      (ready_with rn ents, a, refl, b)

equal_self : (s : SoftState) → equal s s ≡ true
equal_self s = ground arith

-- A soft state that was handed out is not handed out again.
soft_taken :
    (s prev : SoftState)
    → (if equal s (elim (if equal s prev then none else some s) [ none ↦ prev | some t ↦ t ])
        then none
        else some s)
      ≡ none
soft_taken s prev = elim (Bool-cases (equal s prev)) [
  | inl e ↦ rw (e, e) refl
  | inr n ↦ rw (n, equal_self s) refl
]

states_taken : (rs : List ReadState) → (if length rs == 0 then rs else []) ≡ []
states_taken [] = refl
states_taken (x ∷ rs) = ground arith

module _ {S G : Type 0} ⦃st : Storage S⦄ (rn : RawNode S G) where
  accepted :
      (ents : List Entry)
      → next_ents rn.raft.raft_log ≡ ok ents
      → ready_without_accept (accept_ready rn (ready_with rn ents))
        ≡ ok (record (ready_with rn ents) { soft = none; messages = []; read_states = [] })
  unfolding accept_ready ready_without_accept new_ready soft_state hard_state unstable_entries
  accepted ents e =
      rw (e, soft_taken (soft_state rn.raft) rn.prev_soft_st, states_taken rn.raft.read_states) refl

  -- When a `Ready` was taken and nothing else happened, the next one repeats what must be stored
  -- or applied, and has no soft state, no messages and no read states.
  ready-again :
      (rd : Ready) (rn' : RawNode S G)
      → ready rn ≡ ok (rd, rn')
      → ready_without_accept rn' ≡ ok (record rd { soft = none; messages = []; read_states = [] })
  unfolding ready ready_without_accept new_ready
  ready-again rd rn' h =
      let (rd0, h1, h2) =
        bind_ok (ready_without_accept rn) (λ rd. ok (rd, accept_ready rn rd)) (rd, rn') h in
      let (ents, e, f) =
        bind_ok (next_ents rn.raft.raft_log) (λ ents. ok (ready_with rn ents)) rd0 h1 in
      let same : ready_with rn ents ≡ rd = ok_injective f ∙ ap (λ p. p.0) (ok_injective h2) in
      let node : accept_ready rn (ready_with rn ents) ≡ rn' =
        ap (accept_ready rn) (ok_injective f) ∙ ap (λ p. p.1) (ok_injective h2) in
      ap ready_without_accept (sym node)
      ∙ accepted ents e
      ∙ ap {A = Ready} (λ rd. ok (record rd { soft = none; messages = []; read_states = [] })) same
