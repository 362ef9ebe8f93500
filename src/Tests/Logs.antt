-- ===== src/Tests/Logs.antt =====
-- The raft log with 6 and 7 in the storage, and 8 and 9 in memory in place of the stored 8.
use etcd_cr.Common.{◌≡◌, refl, none, [], ◌∷◌, arith, ok, true}
use etcd_cr.Util.{limit_size}
use etcd_cr.Storage
use etcd_cr.Storage.{MemoryStorage, memory_storage}
use etcd_cr.Storage.Laws.{memory_storage_laws}
use etcd_cr.Unstable.{Unstable}
use etcd_cr.Unstable.Laws
use etcd_cr.Unstable.Laws.{truncate_and_append-eq, stable_to-eq}
use etcd_cr.RaftLog.{RaftLog, slice, next_ents, has_next_ents, append, stable_to, unstable_entries}
use etcd_cr.RaftLog.View.{IsValid, start, view}
use etcd_cr.RaftLog.Slices.{slice-range, next_ents-unapplied}
use etcd_cr.RaftLog.Appends.{append-overwrite}
use etcd_cr.RaftLog.Persist.{log_of, persist-view}
use etcd_cr.Tests.{entry}
use etcd_cr.Tests.Stored.{three_stored, three_stored-IsValid}

abbrev two_unstable : Unstable
two_unstable = record { snapshot = none; entries = entry 8 4 ∷ entry 9 4 ∷ []; offset = 8 }

abbrev two_unstable-IsValid : Laws.IsValid two_unstable
two_unstable-IsValid = record {
  consecutive = (refl, (refl, tt));
  bounded = omega arith;
  below = tt;
}

abbrev pub mixed : RaftLog MemoryStorage
mixed = log_of three_stored (entry 8 4 ∷ entry 9 4 ∷ []) 8 7 6 100

abbrev pub mixed-IsValid : IsValid memory_storage_laws mixed
mixed-IsValid = record {
  stored = three_stored-IsValid;
  unstable_valid = two_unstable-IsValid;
  joined = (omega arith, omega arith);
  settled = tt;
  start_le = omega arith;
  applied_le = omega arith;
  committed_lt = omega arith;
}

slice-range_example :
    slice mixed 6 10 1000
    ≡ ok (limit_size (entry 6 2 ∷ entry 7 2 ∷ entry 8 4 ∷ entry 9 4 ∷ []) 1000)
slice-range_example =
    slice-range memory_storage_laws mixed mixed-IsValid 6 10 1000 (omega arith) (omega arith)
      (omega arith)

next_ents-unapplied_example :
    (next_ents mixed ≡ ok (limit_size (entry 7 2 ∷ []) 100)) × (has_next_ents mixed ≡ ok true)
next_ents-unapplied_example = next_ents-unapplied memory_storage_laws mixed mixed-IsValid

append-overwrite_log_example :
    (l' : RaftLog MemoryStorage) × (v' : IsValid memory_storage_laws l') × (append mixed
        (entry 9 5 ∷ entry 10 5 ∷ [])
      ≡ ok (l', 10))
    × (start memory_storage_laws l' v' ≡ entry 5 1)
    × (view memory_storage_laws l' v'
        ≡ entry 6 2 ∷ entry 7 2 ∷ entry 8 4 ∷ entry 9 5 ∷ entry 10 5 ∷ [])
    × (l'.committed ≡ 7)
    × (l'.applied ≡ 6)
append-overwrite_log_example =
    append-overwrite memory_storage_laws mixed mixed-IsValid (entry 9 5) (entry 10 5 ∷ [])
      (refl, (refl, tt)) (omega arith) (omega arith) (omega arith)

persist-view_example :
    (ms' : MemoryStorage) × (l' : RaftLog MemoryStorage) × (v' : IsValid memory_storage_laws l')
    × (Storage.append three_stored (entry 8 4 ∷ entry 9 4 ∷ []) ≡ ok ms')
    × (stable_to (log_of ms' (entry 8 4 ∷ entry 9 4 ∷ []) 8 7 6 100) 9 4 ≡ ok l')
    × (unstable_entries l' ≡ [])
    × (start memory_storage_laws l' v' ≡ entry 5 1)
    × (view memory_storage_laws l' v' ≡ entry 6 2 ∷ entry 7 2 ∷ entry 8 4 ∷ entry 9 4 ∷ [])
persist-view_example =
    persist-view three_stored (entry 8 4) (entry 9 4 ∷ []) 7 6 100 mixed-IsValid (omega arith)
      (entry 9 4) refl
