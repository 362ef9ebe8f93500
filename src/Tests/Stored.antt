-- ===== src/Tests/Stored.antt =====
-- The size limit and `MemoryStorage` with the entries 6, 7 and 8 behind index 5.
use etcd_cr.Common.{
  ℕ, ◌+◌, ◌≤◌, ◌<◌, ◌≡◌, ◌⊎◌, refl, none, some, List, [], ◌∷◌, ◌++◌, arith, length, ok, err,
  snap_out_of_date,
}
use etcd_cr.Raftpb.{Entry, Snapshot, zero_conf_state, add_node}
use etcd_cr.Raftpb.Size.{entry_size}
use etcd_cr.Raftpb.Marshal.{marshal_conf_change, conf_change_size, length-marshal_conf_change}
use etcd_cr.Util.{limit_size}
use etcd_cr.Util.Laws.{total_size, limit_size-Longest}
use etcd_cr.Storage.{
  MemoryStorage, append, compact, first_index, last_index, term, entries, create_snapshot,
  apply_snapshot, conf_state_or,
}
use etcd_cr.Storage.Valid.{IsValid}
use etcd_cr.Storage.Writes.{append_stored-overwrite, append-IsValid}
use etcd_cr.Storage.Compaction.{compact-keeps}
use etcd_cr.Storage.Snapshots.{create_snapshot_lem, apply_snapshot_lem}
use etcd_cr.Tests.{entry}

abbrev snapshot_at : ℕ → Snapshot
snapshot_at i = record {
  bytes = none;
  metadata = record { conf_state = zero_conf_state; index = i; term = 1 };
}

abbrev pub three_stored : MemoryStorage
three_stored = record {
  hard_state = record { term = 2; vote = 0; commit = 0 };
  snapshot = snapshot_at 5;
  ents = entry 5 1 ∷ entry 6 2 ∷ entry 7 2 ∷ entry 8 3 ∷ [];
}

abbrev pub three_stored-IsValid : IsValid three_stored
three_stored-IsValid = record {
  dummy = entry 5 1;
  log = entry 6 2 ∷ entry 7 2 ∷ entry 8 3 ∷ [];
  shape = refl;
  consecutive = (refl, (refl, (refl, tt)));
  bounded = omega arith;
  small = omega arith;
}

limit_size-Longest_example :
    (rest : List Entry) × (entry 6 2 ∷ entry 7 2 ∷ entry 8 3 ∷ []
      ≡ limit_size (entry 6 2 ∷ entry 7 2 ∷ entry 8 3 ∷ []) 14 ++ rest)
    × (1 ≤ length (limit_size (entry 6 2 ∷ entry 7 2 ∷ entry 8 3 ∷ []) 14))
    × ((length (limit_size (entry 6 2 ∷ entry 7 2 ∷ entry 8 3 ∷ []) 14) ≡ 1)
        ⊎ (total_size (limit_size (entry 6 2 ∷ entry 7 2 ∷ entry 8 3 ∷ []) 14) ≤ 14))
    × ((rest ≡ [])
        ⊎ ((x : Entry) × (r : List Entry) × (rest ≡ x ∷ r)
            × (14
                < total_size (limit_size (entry 6 2 ∷ entry 7 2 ∷ entry 8 3 ∷ []) 14)
                  + entry_size x)))
limit_size-Longest_example = limit_size-Longest (entry 6 2) (entry 7 2 ∷ entry 8 3 ∷ []) 14

append-two :
    append three_stored (entry 7 4 ∷ entry 8 4 ∷ [])
    ≡ ok (record three_stored { ents = entry 5 1 ∷ entry 6 2 ∷ entry 7 4 ∷ entry 8 4 ∷ [] })
append-two =
    append_stored-overwrite three_stored three_stored-IsValid (entry 7 4) (entry 8 4 ∷ [])
      (refl, (refl, tt)) (omega arith)

append-IsValid_example :
    IsValid (record three_stored { ents = entry 5 1 ∷ entry 6 2 ∷ entry 7 4 ∷ entry 8 4 ∷ [] })
append-IsValid_example =
    append-IsValid three_stored three_stored-IsValid (entry 7 4) (entry 8 4 ∷ []) (refl, (refl, tt))
      (omega arith) (omega arith) append-two

compact-keeps_example :
    (ms' : MemoryStorage) × (compact three_stored 6 ≡ ok ms')
    × IsValid ms'
    × (first_index ms' ≡ ok 7)
    × (last_index ms' ≡ last_index three_stored)
    × (term ms' 8 ≡ term three_stored 8)
    × (entries ms' 7 9 100 ≡ entries three_stored 7 9 100)
compact-keeps_example =
    compact-keeps three_stored three_stored-IsValid 6 (omega arith) (omega arith) 8 7 9 100
      (omega arith) (omega arith) (omega arith) (omega arith) (omega arith) (omega arith)

create_snapshot_example :
    (ms' : MemoryStorage) × (snap : Snapshot) × (create_snapshot three_stored 7 none (some (1 ∷ []))
      ≡ ok (ms', snap))
    × (ms' ≡ record three_stored { snapshot = snap })
    × IsValid ms'
    × (snap.metadata.index ≡ 7)
    × (term three_stored 7 ≡ ok snap.metadata.term)
    × (snap.metadata.conf_state ≡ conf_state_or three_stored none)
    × (snap.bytes ≡ some (1 ∷ []))
create_snapshot_example =
    create_snapshot_lem three_stored three_stored-IsValid 7 none (some (1 ∷ [])) (omega arith)
      (omega arith) (omega arith)

apply_snapshot_example :
    ((9 ≤ 5) × (apply_snapshot three_stored (snapshot_at 9) ≡ err snap_out_of_date))
    ⊎ ((5 < 9)
        × ((ms' : MemoryStorage) × (apply_snapshot three_stored (snapshot_at 9) ≡ ok ms')
            × IsValid ms'
            × (ms'.snapshot ≡ snapshot_at 9)
            × (first_index ms' ≡ ok 10)
            × (last_index ms' ≡ ok 9)
            × (term ms' 9 ≡ ok 1)))
apply_snapshot_example = apply_snapshot_lem three_stored (snapshot_at 9) (omega arith)

length-marshal_conf_change_example :
    length (
      marshal_conf_change
        (record { type = add_node; node_id = 300; context = some (1 ∷ 2 ∷ []); id = 0 }))
    ≡ conf_change_size
        (record { type = add_node; node_id = 300; context = some (1 ∷ 2 ∷ []); id = 0 })
length-marshal_conf_change_example =
    length-marshal_conf_change
      (record { type = add_node; node_id = 300; context = some (1 ∷ 2 ∷ []); id = 0 })
