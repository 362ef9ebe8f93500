-- ===== src/Unstable.antt =====
-- raft/log_unstable.go: the entries and the snapshot that are not in the storage yet. A method
-- that changes them returns the new value. `shrinkEntriesArray` copies the entries to a smaller
-- array where much of it is unused: the entries stay the same, and the capacity is not modelled.
pub mod Laws
use etcd_cr.Common.{
  ℕ, ◌+◌, Bool, true, false, ◌&&◌, ◌||◌, Option, none, some, List, [], ◌∷◌, ◌++◌, ltb, leb, ◌==◌,
  if◌then◌else◌, length, get_elem?, add64, sub64, Result, ok, panic, ◌>>=◌, ◌>>◌, or_panic, assert,
  slice, not,
}
use etcd_cr.Raftpb.{Entry, Snapshot}

pub record Unstable : Type 0 where
  pub snapshot : Option Snapshot
  pub entries : List Entry
  pub offset : ℕ

-- `shrinkEntriesArray` moves the entries to a smaller array; as values they stay.
abbrev pub shrink_entries_array : List Entry → List Entry
shrink_entries_array es = es

module _ (u : Unstable) where
  open u use {snapshot, entries, offset}

  unfoldable pub maybe_first_index : Option ℕ
  maybe_first_index = elim snapshot [ none ↦ none | some s ↦ some (add64 s.metadata.index 1) ]

  unfoldable pub maybe_last_index : Option ℕ
  maybe_last_index =
      if not (length entries == 0)
      then some (sub64 (add64 offset (length entries)) 1)
      else (elim snapshot [ none ↦ none | some s ↦ some s.metadata.index ])

  unfoldable pub maybe_term : ℕ → Result (Option ℕ)
  unfolding maybe_last_index
  maybe_term i =
      if ltb i offset
      then (elim snapshot [
        | none ↦ ok none
        | some s ↦ if s.metadata.index == i then ok (some s.metadata.term) else ok none
      ])
      else (elim maybe_last_index [
        | none ↦ ok none
        | some last ↦
            if ltb last i
            then ok none
            else (do e ← or_panic (get_elem? entries (sub64 i offset)); ok (some e.term))
      ])

  unfoldable pub stable_to : ℕ → ℕ → Result Unstable
  unfolding maybe_term
  stable_to i t = do
    found ← maybe_term i
    elim found [
      | none ↦ ok u
      | some gt ↦
          if gt == t && leb offset i
          then (do
            rest ← slice entries (sub64 (add64 i 1) offset) (length entries)
            ok (record u { entries = shrink_entries_array rest; offset = add64 i 1 }))
          else ok u
    ]

  -- `mustCheckOutOfBounds`
  unfoldable pub must_check_out_of_bounds : ℕ → ℕ → Result (Unit {0})
  must_check_out_of_bounds lo hi = do
    assert (leb lo hi)
    let upper = add64 offset (length entries)
    assert (not (ltb lo offset || ltb upper hi))

  -- `(*unstable).slice`
  unfoldable pub slice_of : ℕ → ℕ → Result (List Entry)
  unfolding must_check_out_of_bounds
  slice_of lo hi = do
    must_check_out_of_bounds lo hi
    slice entries (sub64 lo offset) (sub64 hi offset)

  unfoldable pub truncate_and_append : List Entry → Result Unstable
  unfolding slice_of
  truncate_and_append ents = do
    e ← or_panic (get_elem? ents 0)
    let after = e.index
    if after == add64 offset (length entries)
        then ok (record u { entries = entries ++ ents })
        else (if leb after offset
            then ok (record u { offset = after; entries = ents })
            else (do kept ← slice_of offset after; ok (record u { entries = kept ++ ents })))
