-- ===== src/Storage/Snapshots.antt =====
-- `ApplySnapshot` and `CreateSnapshot` on a valid `MemoryStorage`.
use etcd_cr.Common.{
  ℕ, ◌+◌, ◌-◌, ◌≤◌, ◌<◌, ◌≡◌, ◌⊎◌, inl, inr, refl, ap, ◌∙◌, List, [], ◌∷◌, arith, length, Option,
  ok, err, u64_mod, get_elem?_lt, add64-eq, sub64-eq, snap_out_of_date,
}
use etcd_cr.Raftpb.{Snapshot, ConfState}
use etcd_cr.Storage.{
  MemoryStorage, first_index, last_index, term, apply_snapshot, create_snapshot, conf_state_or,
}
use etcd_cr.Storage.Valid.{IsValid, first_index-eq, last_index-eq, term-eq}
use etcd_cr.Storage.Writes.{dummy_of}
use native.Mathlib.Decide.{dec_le}

-- `ApplySnapshot` of a snapshot at a later index than the last one leaves a valid storage that
-- holds just the snapshot: it begins behind the snapshot's index, ends at it, and answers `Term`
-- there with the snapshot's term. An older snapshot is refused.
pub apply_snapshot_lem :
    (ms : MemoryStorage) (snap : Snapshot)
    → snap.metadata.index + 1 < u64_mod
    → ((snap.metadata.index ≤ ms.snapshot.metadata.index)
        × (apply_snapshot ms snap ≡ err snap_out_of_date))
      ⊎ ((ms.snapshot.metadata.index < snap.metadata.index)
          × ((ms' : MemoryStorage) × (apply_snapshot ms snap ≡ ok ms')
              × IsValid ms'
              × (ms'.snapshot ≡ snap)
              × (first_index ms' ≡ ok (snap.metadata.index + 1))
              × (last_index ms' ≡ ok snap.metadata.index)
              × (term ms' snap.metadata.index ≡ ok snap.metadata.term)))
unfolding apply_snapshot
apply_snapshot_lem ms snap small = elim (dec_le snap.metadata.index ms.snapshot.metadata.index) [
  | yes old ↦ inl (old, ground arith)
  | no later ↦
      let base = dummy_of snap.metadata.index snap.metadata.term in
      let ms' : MemoryStorage = record ms { snapshot = snap; ents = base ∷ [] } in
      let v : IsValid ms' = record {
        dummy = base;
        log = [];
        shape = refl;
        consecutive = tt;
        bounded = omega arith;
        small = omega arith;
      } in
      inr (
        omega arith,
        (
          ms',
          ground arith,
          v,
          refl,
          first_index-eq ms' v,
          last_index-eq ms' v ∙ ap ok (omega arith),
          term-eq ms' v snap.metadata.index (omega arith) (omega arith) ∙ ground arith,
        ),
      )
]

module _ (ms : MemoryStorage) (v : IsValid ms) where
  open v use {dummy, log}

  -- `CreateSnapshot` at an index above the last snapshot's that the storage holds records a snapshot
  -- at that index, with its term, the given data, and the given membership or else the old one;
  -- the storage stays valid, and nothing else of it changes.
  pub create_snapshot_lem :
      (i : ℕ) (cs : Option ConfState) (bytes : Option (List ℕ))
      → ms.snapshot.metadata.index < i
      → dummy.index ≤ i
      → i ≤ dummy.index + length log
      → (ms' : MemoryStorage) × (snap : Snapshot) × (create_snapshot ms i cs bytes ≡ ok (ms', snap))
        × (ms' ≡ record ms { snapshot = snap })
        × IsValid ms'
        × (snap.metadata.index ≡ i)
        × (term ms i ≡ ok snap.metadata.term)
        × (snap.metadata.conf_state ≡ conf_state_or ms cs)
        × (snap.bytes ≡ bytes)
  unfolding create_snapshot
  create_snapshot_lem i cs bytes a b c =
      let (e, found) = get_elem?_lt (i - dummy.index) (dummy ∷ log) (omega arith) in
      let snap : Snapshot = record {
        bytes = bytes;
        metadata = record { conf_state = conf_state_or ms cs; index = i; term = e.term };
      } in
      let ms' : MemoryStorage = record ms { snapshot = snap } in
      (
        ms',
        snap,
        ground (
          arith,
          found,
          add64-eq dummy.index (length (dummy ∷ log)),
          sub64-eq (dummy.index + length (dummy ∷ log)) 1,
          sub64-eq i dummy.index,
        ),
        refl,
        record {
          dummy = dummy;
          log = log;
          shape = v.shape;
          consecutive = v.consecutive;
          bounded = v.bounded;
          small = v.small;
        },
        refl,
        term-eq ms v i (omega arith) (omega arith) ∙ ground (arith, found),
        refl,
        refl,
      )

-- `CreateSnapshot` at or below the index of the last snapshot is refused.
create_snapshot_old :
    (ms : MemoryStorage) (i : ℕ) (cs : Option ConfState) (bytes : Option (List ℕ))
    → i ≤ ms.snapshot.metadata.index
    → create_snapshot ms i cs bytes ≡ err snap_out_of_date
unfolding create_snapshot
create_snapshot_old ms i cs bytes h = ground arith
