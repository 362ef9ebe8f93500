-- ===== src/RaftLog.antt =====
-- raft/log.go: the log of a raft node, its stable entries behind the `Storage` interface and the
-- others in memory. The logger is left out; a `Panicf` is a panic.
pub mod View
pub mod Terms
pub mod Parts
pub mod Slices
pub mod Appends
pub mod Persist
use etcd_cr.Common.{
  ℕ, ◌+◌, Bool, true, false, ◌&&◌, ◌||◌, Option, none, some, List, [], ◌∷◌, ◌++◌, ltb, leb, ◌==◌,
  if◌then◌else◌, length, get_elem?, add64, sub64, Result, ok, err, panic, ◌>>=◌, ◌>>◌, or_panic,
  assert, must, not, compacted, unavailable, Error,
}
use etcd_cr.Raftpb.{Entry}
use etcd_cr.Util.{min, max, no_limit, limit_size}
use etcd_cr.Storage.{Storage}
use etcd_cr.Unstable.{
  Unstable, maybe_first_index, maybe_last_index, maybe_term, slice_of, truncate_and_append,
}
use etcd_cr.Unstable

pub record RaftLog (S : Type 0) : Type 0 where
  pub storage : S
  pub unstable : Unstable
  pub committed : ℕ
  pub applied : ℕ
  pub max_next_ents_size : ℕ

-- What `term` and `slice` do with an error of the storage: two kinds are passed on, any other
-- panics (`slice` panics on `unavailable` too).
abbrev pub passed_on : Result ℕ → Result ℕ
passed_on (ok t) = ok t
passed_on (err compacted) = err compacted
passed_on (err unavailable) = err unavailable
passed_on _ = panic

abbrev pub only_compacted : Result (List Entry) → Result (List Entry)
only_compacted (ok es) = ok es
only_compacted (err compacted) = err compacted
only_compacted _ = panic

module _ {S : Type 0} ⦃st : Storage S⦄ where
  -- `newLogWithSize`
  unfoldable pub new_log_with_size : S → ℕ → Result (RaftLog S)
  new_log_with_size storage max_next_ents_size = do
    first ← must (st.first_index storage)
    last ← must (st.last_index storage)
    ok (record {
      storage = storage;
      unstable = record { snapshot = none; entries = []; offset = add64 last 1 };
      committed = sub64 first 1;
      applied = sub64 first 1;
      max_next_ents_size = max_next_ents_size;
    })

  -- `newLog`
  unfoldable pub new_log : S → Result (RaftLog S)
  unfolding new_log_with_size
  new_log storage = new_log_with_size storage no_limit

  module _ (l : RaftLog S) where
    open l use {storage, unstable, committed, applied, max_next_ents_size}

    unfoldable pub first_index : Result ℕ
    first_index = elim (maybe_first_index unstable) [
      | some i ↦ ok i
      | none ↦ must (st.first_index storage)
    ]

    unfoldable pub last_index : Result ℕ
    last_index = elim (maybe_last_index unstable) [
      | some i ↦ ok i
      | none ↦ must (st.last_index storage)
    ]

  module _ (l : RaftLog S) where
    open l use {storage, unstable, committed, applied, max_next_ents_size}

    -- `append`: the new log, and its last index.
    unfoldable pub append : List Entry → Result (RaftLog S × ℕ)
    append [] = do i ← last_index l; ok (l, i)
    append (e ∷ es) = do
      assert (not (ltb (sub64 e.index 1) committed))
      u ← truncate_and_append unstable (e ∷ es)
      let l' = record l { unstable = u }
      i ← last_index l'
      ok (l', i)

    -- `unstableEntries`; the nil slice and the empty slice are both `[]`.
    unfoldable pub unstable_entries : List Entry
    unstable_entries = unstable.entries

    -- `stableTo`
    unfoldable pub stable_to : ℕ → ℕ → Result (RaftLog S)
    stable_to i t = do u ← Unstable.stable_to unstable i t; ok (record l { unstable = u })

    unfoldable pub term : ℕ → Result ℕ
    unfolding first_index last_index
    term i = do
      first ← first_index l
      last ← last_index l
      if ltb i (sub64 first 1) || ltb last i then ok 0 else (do
        found ← maybe_term unstable i
        elim found [ some t ↦ ok t | none ↦ passed_on (st.term storage i) ])

    -- `lastTerm`
    unfoldable pub last_term : Result ℕ
    unfolding last_index
    last_term = do i ← last_index l; must (term i)

    -- `mustCheckOutOfBounds`: an error, or nothing.
    unfoldable pub must_check_out_of_bounds : ℕ → ℕ → Result (Unit {0})
    unfolding first_index last_index
    must_check_out_of_bounds lo hi = do
      assert (leb lo hi)
      fi ← first_index l
      if ltb lo fi then err compacted else (do
        last ← last_index l
        let length = sub64 (add64 last 1) fi
        assert (not (ltb lo fi || ltb (add64 fi length) hi)))

    -- The rest of `slice`, after the entries of the storage.
    unfoldable pub slice_unstable : List Entry → ℕ → ℕ → ℕ → Result (List Entry)
    slice_unstable ents lo hi max_size =
        if ltb unstable.offset hi
        then (do
          us ← slice_of unstable (max lo unstable.offset) hi
          ok (limit_size (ents ++ us) max_size))
        else ok (limit_size ents max_size)

    -- `slice`: the entries with indices from `lo` up to, not including, `hi`.
    unfoldable pub slice : ℕ → ℕ → ℕ → Result (List Entry)
    slice lo hi max_size = do
      must_check_out_of_bounds lo hi
      if lo == hi
          then ok []
          else (if ltb lo unstable.offset
              then (do
                stored ← only_compacted (st.entries storage lo (min hi unstable.offset) max_size)
                if ltb (length stored) (sub64 (min hi unstable.offset) lo)
                    then ok stored
                    else slice_unstable stored lo hi max_size)
              else slice_unstable [] lo hi max_size)

    -- `hasNextEnts`
    unfoldable pub has_next_ents : Result Bool
    unfolding first_index
    has_next_ents = do
      first ← first_index l
      let off = max (add64 applied 1) first
      ok (ltb off (add64 committed 1))

    -- `nextEnts`
    unfoldable pub next_ents : Result (List Entry)
    unfolding first_index
    next_ents = do
      first ← first_index l
      let off = max (add64 applied 1) first
      if ltb off (add64 committed 1)
          then must (slice off (add64 committed 1) max_next_ents_size)
          else ok []
