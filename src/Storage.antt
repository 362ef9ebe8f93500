-- ===== src/Storage.antt =====
-- raft/storage.go: the `Storage` interface and `MemoryStorage`, its implementation in memory.
-- A method that changes the storage returns the new one; the mutex is left out, since each method
-- holds it throughout and is one step.
pub mod Valid
pub mod Writes
pub mod Compaction
pub mod Snapshots
pub mod Laws
use etcd_cr.Common.{
  ℕ, ◌+◌, ◌^◌, Bool, true, false, ◌&&◌, Option, none, some, List, [], ◌∷◌, ◌++◌, ltb, leb, ◌==◌,
  if◌then◌else◌, length, get_elem?, add64, sub64, Result, ok, err, panic, ◌>>=◌, ◌>>◌, or_panic,
  assert, slice, compacted, unavailable, snap_out_of_date,
}
use etcd_cr.Raftpb.{
  Entry, HardState, ConfState, Snapshot, entry_normal, zero_conf_state, zero_snapshot,
}
use etcd_cr.Util.{limit_size}

-- The `Storage` interface.
pub record Storage (S : Type 0) : Type 0 where
  pub initial_state : S → Result (HardState × ConfState)
  pub entries : S → ℕ → ℕ → ℕ → Result (List Entry)
  pub term : S → ℕ → Result ℕ
  pub last_index : S → Result ℕ
  pub first_index : S → Result ℕ
  pub snapshot : S → Result Snapshot

pub record MemoryStorage : Type 0 where
  pub hard_state : HardState
  pub snapshot : Snapshot
  pub ents : List Entry

abbrev pub zero_entry : Entry
zero_entry = record { term = 0; index = 0; type = entry_normal; bytes = none }

-- `NewMemoryStorage`: one zero entry stands before the first index.
unfoldable pub new_memory_storage : MemoryStorage
new_memory_storage = record {
  hard_state = record { term = 0; vote = 0; commit = 0 };
  snapshot = zero_snapshot;
  ents = zero_entry ∷ [];
}

module _ (ms : MemoryStorage) where
  open ms use {ents}

  -- `ms.ents[0].Index`
  abbrev pub offset : Result ℕ
  offset = do e ← or_panic (get_elem? ents 0); ok e.index

  unfoldable pub initial_state : Result (HardState × ConfState)
  initial_state = ok (ms.hard_state, ms.snapshot.metadata.conf_state)

  unfoldable pub set_hard_state : HardState → Result MemoryStorage
  set_hard_state st = ok (record ms { hard_state = st })

  -- `LastIndex`, `lastIndex`
  unfoldable pub last_index : Result ℕ
  last_index = do o ← offset; ok (sub64 (add64 o (length ents)) 1)

  -- `FirstIndex`, `firstIndex`
  unfoldable pub first_index : Result ℕ
  first_index = do o ← offset; ok (add64 o 1)

  -- `Snapshot`
  unfoldable pub get_snapshot : Result Snapshot
  get_snapshot = ok ms.snapshot

  -- `Entries`
  unfoldable pub entries : ℕ → ℕ → ℕ → Result (List Entry)
  unfolding last_index
  entries lo hi max_size = do
    o ← offset
    if leb lo o then err compacted else (do
      last ← last_index
      assert (leb hi (add64 last 1))
      if length ents == 1
          then err unavailable
          else (do es ← slice ents (sub64 lo o) (sub64 hi o); ok (limit_size es max_size)))

  -- `Term`. The conversion `int(i-offset)` is negative from 2^63 on, where the test fails.
  unfoldable pub term : ℕ → Result ℕ
  term i = do
    o ← offset
    if ltb i o
        then err compacted
        else (if ltb (sub64 i o) (2 ^ 63) && leb (length ents) (sub64 i o)
            then err unavailable
            else (do e ← or_panic (get_elem? ents (sub64 i o)); ok e.term))

  -- `ApplySnapshot`
  unfoldable pub apply_snapshot : Snapshot → Result MemoryStorage
  apply_snapshot snap =
      if leb snap.metadata.index ms.snapshot.metadata.index
      then err snap_out_of_date
      else ok (record ms {
        snapshot = snap;
        ents = record zero_entry { term = snap.metadata.term; index = snap.metadata.index } ∷ [];
      })

  abbrev pub conf_state_or : Option ConfState → ConfState
  conf_state_or none = ms.snapshot.metadata.conf_state
  conf_state_or (some cs) = cs

  -- `CreateSnapshot`
  unfoldable pub create_snapshot :
      ℕ → Option ConfState → Option (List ℕ) → Result (MemoryStorage × Snapshot)
  unfolding last_index
  create_snapshot i cs bytes =
      if leb i ms.snapshot.metadata.index then err snap_out_of_date else (do
        o ← offset
        last ← last_index
        assert (leb i last)
        e ← or_panic (get_elem? ents (sub64 i o))
        let snap = record ms.snapshot {
          bytes = bytes;
          metadata = record { conf_state = conf_state_or cs; index = i; term = e.term };
        }
        ok (record ms { snapshot = snap }, snap))

  -- `Compact`
  unfoldable pub compact : ℕ → Result MemoryStorage
  unfolding last_index
  compact compact_index = do
    o ← offset
    if leb compact_index o then err compacted else (do
      last ← last_index
      assert (leb compact_index last)
      let i = sub64 compact_index o
      e ← or_panic (get_elem? ents i)
      rest ← slice ents (add64 i 1) (length ents)
      ok (record ms { ents = record zero_entry { term = e.term; index = e.index } ∷ rest }))

  -- The end of `Append`: `entries` is not empty and begins after the first entry of `ents`.
  unfoldable pub append_at : ℕ → List Entry → Result MemoryStorage
  append_at o es = do
    e ← or_panic (get_elem? es 0)
    let at = sub64 e.index o
    if ltb at (length ents)
        then (do kept ← slice ents 0 at; ok (record ms { ents = kept ++ es }))
        else (if length ents == at then ok (record ms { ents = ents ++ es }) else panic)

  -- `Append`
  unfoldable pub append : List Entry → Result MemoryStorage
  unfolding first_index
  append [] = ok ms
  append (e ∷ es) = do
    first ← first_index
    let last = sub64 (add64 e.index (length (e ∷ es))) 1
    if ltb last first then ok ms else (do
      new ←
          (if ltb e.index first
            then slice (e ∷ es) (sub64 first e.index) (length (e ∷ es))
            else ok (e ∷ es))
      o ← offset
      append_at o new)

-- `MemoryStorage` implements `Storage`.
instance abbrev pub memory_storage : Storage MemoryStorage
memory_storage = record {
  initial_state = initial_state;
  entries = entries;
  term = term;
  last_index = last_index;
  first_index = first_index;
  snapshot = get_snapshot;
}
