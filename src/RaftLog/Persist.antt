-- ===== src/RaftLog/Persist.antt =====
-- Unstable entries that are appended to the storage and then reported stable: the way from
-- `unstable` to `MemoryStorage` in log.go, log_unstable.go and storage.go.
use etcd_cr.Common.{
  ℕ, suc, ◌+◌, ◌-◌, ◌^◌, ◌<◌, ◌≡◌, refl, ap, ◌∙◌, none, some, List, [], ◌∷◌, ◌++◌, arith, length,
  take, drop, ok, get_elem?, drop_of_length-le, take_of_length-le, append-nil,
}
use etcd_cr.Raftpb.{Entry}
use etcd_cr.Entries.{overwrite, Consecutive-overwrite, length-overwrite}
use etcd_cr.Storage.{MemoryStorage, memory_storage}
use etcd_cr.Storage
use etcd_cr.Storage.Valid
use etcd_cr.Storage.Writes.{append_stored-overwrite, holding-IsValid}
use etcd_cr.Storage.Laws.{memory_storage_laws}
use etcd_cr.Unstable.Laws
use etcd_cr.RaftLog.{RaftLog, stable_to, unstable_entries}
use etcd_cr.RaftLog.View.{IsValid, start, view}

-- A raft log over `ms` without a pending snapshot.
abbrev pub log_of : MemoryStorage → List Entry → ℕ → ℕ → ℕ → ℕ → RaftLog MemoryStorage
log_of ms es offset committed applied limit = record {
  storage = ms;
  unstable = record { snapshot = none; entries = es; offset = offset };
  committed = committed;
  applied = applied;
  max_next_ents_size = limit;
}

module _ (ms : MemoryStorage) (e : Entry) (es : List Entry) (committed applied limit : ℕ)
    (v : IsValid memory_storage_laws (log_of ms (e ∷ es) e.index committed applied limit))
    (small : e.index + length (e ∷ es) < v.stored.dummy.index + 2 ^ 63) where
  abbrev d : Entry
  d = v.stored.dummy

  abbrev log : List Entry
  log = v.stored.log

  abbrev all : List Entry
  all = overwrite d.index log e.index (e ∷ es)

  abbrev stored : MemoryStorage
  stored = Valid.holding ms d all

  -- The raft log once the entries are in the storage, and once they are reported stable.
  abbrev written : RaftLog MemoryStorage
  written = log_of stored (e ∷ es) e.index committed applied limit

  abbrev settled : RaftLog MemoryStorage
  settled = log_of stored [] (e.index + length es + 1) committed applied limit

  append-stored : Storage.append ms (e ∷ es) ≡ ok stored
  append-stored =
      append_stored-overwrite ms v.stored e es v.unstable_valid.consecutive v.unstable_valid.bounded
      ∙ ground (arith, v.joined)

  length-all : d.index + length all + 1 ≡ e.index + length (e ∷ es)
  length-all = omega (arith, v.joined, length-overwrite d.index log e.index (e ∷ es))

  abbrev stored-IsValid : Valid.IsValid stored
  stored-IsValid =
      holding-IsValid ms v.stored d all
        (Consecutive-overwrite d.index log e.index (e ∷ es) (omega (arith, v.joined))
          (omega (arith, v.joined)) v.stored.consecutive v.unstable_valid.consecutive)
        (omega (arith, length-all, v.unstable_valid.bounded)) (omega (arith, length-all))

  abbrev settled-IsValid : IsValid memory_storage_laws settled
  settled-IsValid = record {
    stored = stored-IsValid;
    unstable_valid = record {
      consecutive = tt;
      bounded = omega (arith, v.unstable_valid.bounded);
      below = tt;
    };
    joined = omega (arith, length-all, v.joined);
    settled = omega (arith, length-all);
    start_le = v.start_le;
    applied_le = v.applied_le;
    committed_lt = omega (arith, v.committed_lt);
  }

  view-settled :
      view memory_storage_laws settled settled-IsValid
      ≡ view memory_storage_laws (log_of ms (e ∷ es) e.index committed applied limit) v
  view-settled =
      let q : suc d.index - e.index ≡ 0 = omega (arith, v.joined) in
      append-nil (take (e.index + length es + 1 - suc d.index) all)
      ∙ take_of_length-le (e.index + length es + 1 - suc d.index) all (omega (arith, length-all))
      ∙ ap (λ k. take (e.index - suc d.index) log ++ drop k (e ∷ es)) q

  stable_to-settled :
      (x : Entry)
      → get_elem? (e ∷ es) (length es) ≡ some x
      → stable_to written (e.index + length es) x.term ≡ ok settled
  unfolding stable_to
  stable_to-settled x g =
      let i = e.index + length es in
      let here : get_elem? (e ∷ es) (i - e.index) ≡ some x =
        ap (get_elem? (e ∷ es)) (omega arith) ∙ g in
      ground (
        arith,
        here,
        v.unstable_valid.bounded,
        Laws.stable_to-eq written.unstable v.unstable_valid i x.term,
        drop_of_length-le (i + 1 - e.index) (e ∷ es),
      )

  -- Persisting the unstable entries, at least one, of a valid log that has no pending snapshot and
  -- whose next index is less than 2^63 above that of the first entry of the storage: `MemoryStorage.Append` of them succeeds, and
  -- `stableTo` at the last of them, with its term, then leaves a valid log with nothing unstable
  -- that stands for the same entries from the same start.
  pub persist-view :
      (x : Entry)
      → get_elem? (e ∷ es) (length es) ≡ some x
      → (ms' : MemoryStorage) × (l' : RaftLog MemoryStorage) × (v' : IsValid memory_storage_laws l')
        × (Storage.append ms (e ∷ es) ≡ ok ms')
        × (stable_to
              (log_of ms' (e ∷ es) e.index committed applied limit)
              (e.index + length es)
              x.term
            ≡ ok l')
        × (unstable_entries l' ≡ [])
        × (start memory_storage_laws l' v' ≡ v.stored.dummy)
        × (view memory_storage_laws l' v'
            ≡ view memory_storage_laws (log_of ms (e ∷ es) e.index committed applied limit) v)
  unfolding unstable_entries
  persist-view x g = (
    stored,
    settled,
    settled-IsValid,
    append-stored,
    stable_to-settled x g,
    refl,
    refl,
    view-settled,
  )
