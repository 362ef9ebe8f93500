-- ===== src/RaftLog/View.antt =====
-- The log that a raft log stands for: the entries of the storage that the unstable ones do not
-- replace, and then the unstable ones. A snapshot that waits to be stored hides the storage.
use etcd_cr.Common.{
  ℕ, suc, ◌+◌, ◌-◌, ◌≤◌, ◌<◌, ◌≡◌, refl, ap, ◌∙◌, Option, none, some, List, [], ◌∷◌, ◌++◌, arith,
  length, length-append, length-take, take, ok, u64_mod, add64-eq, sub64-eq, Result, must,
}
use etcd_cr.Raftpb.{Entry, Snapshot}
use etcd_cr.Entries.{Consecutive, Consecutive-append, Consecutive-take}
use etcd_cr.Storage.{Storage}
use etcd_cr.Storage.Laws.{StorageLaws}
use etcd_cr.Storage.Writes.{dummy_of}
use etcd_cr.Unstable.{maybe_first_index, maybe_last_index}
use etcd_cr.Unstable.Laws
use etcd_cr.RaftLog.{RaftLog, first_index, last_index}

-- The entry below the first index: that of the snapshot, or else that of the storage.
abbrev pub start_of : Option Snapshot → Entry → Entry
start_of none dummy = dummy
start_of (some s) dummy = dummy_of s.metadata.index s.metadata.term

-- The entries of the storage that count.
abbrev pub stable_part : Option Snapshot → ℕ → Entry → List Entry → List Entry
stable_part none offset dummy log = take (offset - suc dummy.index) log
stable_part (some s) offset dummy log = []

-- The unstable entries begin where the snapshot ends, or else behind the first entry of the
-- storage and at most one past its last.
abbrev pub Joined : Option Snapshot → ℕ → Entry → List Entry → Type 0
Joined none offset dummy log = (dummy.index < offset) × (offset ≤ dummy.index + length log + 1)
Joined (some s) offset dummy log = offset ≡ suc s.metadata.index

-- Where nothing is unstable, the unstable log begins right behind the storage.
abbrev pub Settled : Option Snapshot → List Entry → ℕ → Entry → List Entry → Type 0
Settled none [] offset dummy log = offset ≡ dummy.index + length log + 1
Settled _ _ offset dummy log = Unit

length-stable_part :
    (s : Option Snapshot) (offset : ℕ) (dummy : Entry) (log : List Entry)
    → Joined s offset dummy log
    → suc (start_of s dummy).index + length (stable_part s offset dummy log) ≡ offset
length-stable_part none offset dummy log (a, b) =
    omega (arith, length-take (offset - suc dummy.index) log)
length-stable_part (some s) offset dummy log j = omega arith

Consecutive-stable_part :
    (s : Option Snapshot) (offset : ℕ) (dummy : Entry) (log : List Entry)
    → Consecutive (suc dummy.index) log
    → Consecutive (suc (start_of s dummy).index) (stable_part s offset dummy log)
Consecutive-stable_part none offset dummy log c =
    Consecutive-take (suc dummy.index) (offset - suc dummy.index) log c
Consecutive-stable_part (some s) offset dummy log c = tt

-- `firstIndex` and `lastIndex` where the storage answers `r`.
first_index-parts :
    (s : Option Snapshot) (es : List Entry) (offset : ℕ) (dummy : Entry) (log : List Entry)
    (r : Result ℕ)
    → r ≡ ok (dummy.index + 1)
    → offset + length es < u64_mod
    → Joined s offset dummy log
    → elim (maybe_first_index (record { snapshot = s; entries = es; offset = offset })) [
      | some i ↦ ok i
      | none ↦ must r
    ]
      ≡ ok ((start_of s dummy).index + 1)
unfolding maybe_first_index
first_index-parts none es offset dummy log r e b j = rw e refl
first_index-parts (some s) es offset dummy log r e b j =
    rw (add64-eq s.metadata.index 1 (omega arith)) refl

last_index-parts :
    (s : Option Snapshot) (es : List Entry) (offset : ℕ) (dummy : Entry) (log : List Entry)
    (r : Result ℕ)
    → r ≡ ok (dummy.index + length log)
    → offset + length es < u64_mod
    → Joined s offset dummy log
    → Settled s es offset dummy log
    → elim (maybe_last_index (record { snapshot = s; entries = es; offset = offset })) [
      | some i ↦ ok i
      | none ↦ must r
    ]
      ≡ ok (offset + length es - 1)
unfolding maybe_last_index
last_index-parts none [] offset dummy log r e b j q = ground (arith, e, q)
last_index-parts (some s) [] offset dummy log r e b j q = ground (arith, j)
last_index-parts s (x ∷ es) offset dummy log r e b j q =
    ground (arith, add64-eq offset (length (x ∷ es)), sub64-eq (offset + length (x ∷ es)) 1)

module _ {S : Type 0} ⦃st : Storage S⦄ (laws : StorageLaws S) where
  -- The parts are valid and fit together, and the indices are in order: the first index is at most
  -- one past `applied`, `applied` at most `committed`, and `committed` at most the last index.
  pub record IsValid (l : RaftLog S) : Type 0 where
    pub stored : laws.Valid l.storage
    pub unstable_valid : Laws.IsValid l.unstable
    pub joined : Joined l.unstable.snapshot l.unstable.offset (laws.dummy stored) (laws.log stored)
    pub settled :
        Settled l.unstable.snapshot l.unstable.entries l.unstable.offset
          (laws.dummy stored)
          (laws.log stored)
    pub start_le : (start_of l.unstable.snapshot (laws.dummy stored)).index ≤ l.applied
    pub applied_le : l.applied ≤ l.committed
    pub committed_lt : l.committed < l.unstable.offset + length l.unstable.entries

  module _ (l : RaftLog S) (v : IsValid l) where
    abbrev pub start : Entry
    start = start_of l.unstable.snapshot (laws.dummy v.stored)

    abbrev pub stable_log : List Entry
    stable_log =
        stable_part l.unstable.snapshot l.unstable.offset (laws.dummy v.stored) (laws.log v.stored)

    -- The entries of the log, from the first index to the last.
    abbrev pub view : List Entry
    view = stable_log ++ l.unstable.entries

    pub offset-eq : suc start.index + length stable_log ≡ l.unstable.offset
    offset-eq =
        length-stable_part l.unstable.snapshot l.unstable.offset (laws.dummy v.stored)
          (laws.log v.stored) v.joined

    pub length-view : start.index + length view + 1 ≡ l.unstable.offset + length l.unstable.entries
    length-view = omega (arith, offset-eq, length-append stable_log l.unstable.entries)

    -- The entries of the log have consecutive indices.
    pub view-Consecutive : Consecutive (suc start.index) view
    view-Consecutive =
        Consecutive-append (suc start.index) l.unstable.offset stable_log l.unstable.entries
          offset-eq
          (Consecutive-stable_part l.unstable.snapshot l.unstable.offset (laws.dummy v.stored)
            (laws.log v.stored) (laws.consecutive v.stored))
          v.unstable_valid.consecutive

    -- `firstIndex` is the index of the first entry of the log.
    pub first_index-eq : first_index l ≡ ok (start.index + 1)
    unfolding first_index
    first_index-eq =
        first_index-parts l.unstable.snapshot l.unstable.entries l.unstable.offset
          (laws.dummy v.stored) (laws.log v.stored) (st.first_index l.storage)
          (laws.first_index_law v.stored) v.unstable_valid.bounded v.joined

    -- `lastIndex` is the index of the last entry of the log, or of the one before the first.
    pub last_index-eq : last_index l ≡ ok (start.index + length view)
    unfolding last_index
    last_index-eq =
        last_index-parts l.unstable.snapshot l.unstable.entries l.unstable.offset
          (laws.dummy v.stored) (laws.log v.stored) (st.last_index l.storage)
          (laws.last_index_law v.stored) v.unstable_valid.bounded v.joined v.settled
        ∙ ap ok (omega (arith, length-view))
