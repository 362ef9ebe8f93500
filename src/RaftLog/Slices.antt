-- ===== src/RaftLog/Slices.antt =====
-- `slice`, `nextEnts` and `hasNextEnts` of a valid raft log.
use native.Mathlib.Decide.{dec_lt, ℕ_discrete}
use etcd_cr.Common.{
  ℕ, suc, ◌+◌, ◌-◌, ◌≤◌, ◌<◌, ◌≡◌, sym, ap, ◌∙◌, List, [], ◌++◌, arith, length, min, max, ok,
  u64_mod, sub64, add64-eq, sub64-eq, ltb, ◌==◌, not, append-nil, segment, segment-append,
  segment-cut, length-segment, ne→==_false, lt→ltb,
}
use etcd_cr.Raftpb.{Entry}
use etcd_cr.Util.{limit_size, min as min64}
use etcd_cr.Util.Laws.{limit_size-nil, min_lem}
use etcd_cr.Storage.{Storage}
use etcd_cr.Storage.Laws.{StorageLaws}
use etcd_cr.Unstable.Laws
use etcd_cr.RaftLog.{
  RaftLog, slice, slice_unstable, must_check_out_of_bounds, next_ents, has_next_ents,
  only_compacted,
}
use etcd_cr.RaftLog.View.{
  IsValid, start, stable_log, view, offset-eq, length-view, first_index-eq, last_index-eq,
}
use etcd_cr.RaftLog.Parts.{stored-eq, limit-parts, limited_empty}

module _ {S : Type 0} ⦃st : Storage S⦄ (laws : StorageLaws S) (l : RaftLog S)
    (v : IsValid laws l) where
  open l use {unstable}

  abbrev base : ℕ
  base = (start laws l v).index

  abbrev entries : List Entry
  entries = view laws l v

  slice_unstable-eq :
      (xs : List Entry) (a b m : ℕ)
      → a ≤ b
      → b ≤ unstable.offset + length unstable.entries
      → slice_unstable l xs a b m
        ≡ ok (
            limit_size
              (xs ++ segment (a - unstable.offset) (b - unstable.offset) unstable.entries)
              m)
  unfolding slice_unstable
  slice_unstable-eq xs a b m p q = elim (dec_lt unstable.offset b) [
    | yes more ↦
        ground (arith, Laws.slice_of-eq unstable v.unstable_valid (max a unstable.offset) b)
    | no none_left ↦
        let e : b - unstable.offset - (a - unstable.offset) ≡ 0 = omega arith in
        rw e (ground (arith, append-nil xs))
  ]

  -- The entries with indices from `a` up to, not including, `b`.
  abbrev pub range : ℕ → ℕ → List Entry
  range a b = segment (a - suc base) (b - suc base) entries

  abbrev stored_range : ℕ → ℕ → List Entry
  stored_range a b = segment (a - suc base) (min b unstable.offset - suc base) (stable_log laws l v)

  range-split :
      (a b : ℕ)
      → range a b
        ≡ stored_range a b ++ segment (a - unstable.offset) (b - unstable.offset) unstable.entries
  range-split a b =
      let n = length (stable_log laws l v) in
      let here = offset-eq laws l v in
      let p : a - suc base - n ≡ a - unstable.offset = omega arith in
      let q : b - suc base - n ≡ b - unstable.offset = omega arith in
      segment-append (a - suc base) (b - suc base) (stable_log laws l v) unstable.entries
      ∙ rw (p, q)
          (ap (λ xs. xs ++ segment (a - unstable.offset) (b - unstable.offset) unstable.entries)
            (cut (dec_lt unstable.offset b)))
    where
      cut :
          Dec (unstable.offset < b)
          → segment (a - suc base) (b - suc base) (stable_log laws l v) ≡ stored_range a b
      cut (yes more) =
          let here = offset-eq laws l v in
          segment-cut (a - suc base) (b - suc base) (min b unstable.offset - suc base)
            (stable_log laws l v) (omega arith) (omega arith)
      cut (no fewer) =
          let e : b - suc base ≡ min b unstable.offset - suc base = omega arith in
          ap (λ k. segment (a - suc base) k (stable_log laws l v)) e

  module _ (a b m : ℕ) (above : base < a) (ordered : a ≤ b)
      (within : b ≤ base + length entries + 1) where
    bounds-ok : must_check_out_of_bounds l a b ≡ ok tt
    unfolding must_check_out_of_bounds
    bounds-ok =
        let bound = v.unstable_valid.bounded in
        let total = length-view laws l v in
        ground (
          arith,
          first_index-eq laws l v,
          last_index-eq laws l v,
          add64-eq (base + length entries) 1,
          sub64-eq (base + length entries + 1) (base + 1),
          add64-eq (base + 1) (base + length entries + 1 - (base + 1)),
        )

    stored-slice :
        a < unstable.offset
        → only_compacted (st.entries l.storage a (min64 b unstable.offset) m)
          ≡ ok (limit_size (stored_range a b) m)
    stored-slice h =
        ap (λ c. only_compacted (st.entries l.storage a c m)) (min_lem b unstable.offset)
        ∙ stored-eq unstable.snapshot unstable.offset (laws.dummy v.stored) (laws.log v.stored) a
            (min b unstable.offset) m (st.entries l.storage a (min b unstable.offset) m) v.joined
            above h (omega arith)
            (λ p q r. laws.entries_law v.stored a (min b unstable.offset) m p (omega arith) q r)

    length-stored_range :
        a < unstable.offset → length (stored_range a b) ≡ min b unstable.offset - a
    length-stored_range h =
        let here = offset-eq laws l v in
        omega (
          arith,
          length-segment (a - suc base) (min b unstable.offset - suc base) (stable_log laws l v),
        )

    -- `slice` of a range that a valid log holds: the entries of the range, cut to the size limit.
    -- It does not fail, and storage and memory are joined without a gap or a repeat.
    pub slice-range : slice l a b m ≡ ok (limit_size (range a b) m)
    unfolding slice
    slice-range = elim (ℕ_discrete a b) [
      | yes e ↦
          let none_left : b - suc base - (a - suc base) ≡ 0 = omega arith in
          rw none_left (ground (arith, bounds-ok, limit_size-nil m))
      | no ne ↦
          (elim (dec_lt a unstable.offset) [
            | yes low ↦
                let width : sub64 (min64 b unstable.offset) a ≡ min b unstable.offset - a =
                  ap (λ c. sub64 c a) (min_lem b unstable.offset)
                  ∙ sub64-eq (min b unstable.offset) a (omega arith)
                      (omega (arith, v.unstable_valid.bounded)) in
                rw
                  (
                    bounds-ok,
                    ne→==_false a b ne,
                    lt→ltb a unstable.offset low,
                    stored-slice low,
                    width,
                  )
                  (ground (
                    arith,
                    length-view laws l v,
                    length-stored_range low,
                    slice_unstable-eq (limit_size (stored_range a b) m) a b m,
                    limit-parts (stored_range a b)
                        (segment (a - unstable.offset) (b - unstable.offset) unstable.entries) m
                        (min b unstable.offset - a),
                  ))
            | no high ↦
                let above_stored : min b unstable.offset - suc base - (a - suc base) ≡ 0 =
                  omega arith in
                rw above_stored
                  (ground (arith, bounds-ok, length-view laws l v, slice_unstable-eq [] a b m))
          ])
          ∙ ap (λ es. ok (limit_size es m)) (sym (range-split a b))
    ]

  -- The committed entries that are not applied yet.
  abbrev pub unapplied : List Entry
  unapplied = range (l.applied + 1) (l.committed + 1)

  -- `nextEnts` of a valid log returns the entries behind `applied` up to `committed`, cut to the
  -- log's limit, and never panics; `hasNextEnts` says whether there are any.
  pub next_ents-unapplied :
      (next_ents l ≡ ok (limit_size unapplied l.max_next_ents_size))
      × (has_next_ents l ≡ ok (ltb l.applied l.committed))
  unfolding next_ents has_next_ents
  next_ents-unapplied = (
    ground (
      arith,
      first_index-eq laws l v,
      start_le,
      v.applied_le,
      add64-eq l.applied 1,
      add64-eq l.committed 1,
      last,
      bound,
      slice-range (l.applied + 1) (l.committed + 1) l.max_next_ents_size,
      nothing,
      limit_size-nil l.max_next_ents_size,
    ),
    ground (
      arith,
      first_index-eq laws l v,
      start_le,
      v.applied_le,
      add64-eq l.applied 1,
      add64-eq l.committed 1,
      last,
      bound,
    ),
  )
    where
      start_le : base ≤ l.applied
      start_le = v.start_le

      last : l.committed + 1 ≤ base + length entries + 1
      last = omega (arith, length-view laws l v, v.committed_lt)

      bound : l.committed + 1 < u64_mod
      bound = omega (arith, v.committed_lt, v.unstable_valid.bounded)

      nothing : l.committed ≤ l.applied → unapplied ≡ []
      nothing h =
          let e : l.committed + 1 - suc base - (l.applied + 1 - suc base) ≡ 0 = omega arith in rw e

  length-unapplied : length unapplied ≡ l.committed - l.applied
  length-unapplied = ground (
    arith,
    length-segment (l.applied + 1 - suc base) (l.committed + 1 - suc base) entries,
    length-view laws l v,
    v.start_le,
    v.applied_le,
    v.committed_lt,
  )

  -- `hasNextEnts` of a valid log tells whether `nextEnts` returns entries.
  pub has_next_ents-next_ents :
      has_next_ents l ≡ ok (not (length (limit_size unapplied l.max_next_ents_size) == 0))
  has_next_ents-next_ents =
      let (e, f) = next_ents-unapplied in
      f
      ∙ ap ok (limited_empty unapplied l.max_next_ents_size l.committed l.applied length-unapplied)
