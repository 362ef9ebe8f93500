-- ===== src/Storage/Compaction.antt =====
-- What a reader of a valid `MemoryStorage` sees of `Compact`.
use etcd_cr.Common.{
  ℕ, suc, ◌+◌, ◌^◌, ◌-◌, ◌≤◌, ◌<◌, ◌≡◌, sym, ap, ◌∙◌, some, arith, length, ok, err, u64_mod,
  get_elem?, get_elem?-cons, get_elem?-drop, drop, length-drop, drop-drop, segment, compacted,
}
use etcd_cr.Raftpb.{Entry}
use etcd_cr.Util.{limit_size}
use etcd_cr.Entries.{Consecutive-drop, entry_at}
use etcd_cr.Storage.{MemoryStorage, first_index, last_index, term, entries, compact}
use etcd_cr.Storage.Valid.{
  IsValid, holding, holding-eq, term_in, first_index-eq, last_index-eq, term-eq, entries-eq,
}
use etcd_cr.Storage.Writes.{dummy_of, compact-holding, holding-IsValid}

module _ (ms : MemoryStorage) (v : IsValid ms) (c : ℕ) (above : v.dummy.index < c)
    (within : c ≤ v.dummy.index + length v.log) where
  open v use {dummy, log}

  -- The entry at the index of the compaction.
  last_compacted :
      (e : Entry) × (get_elem? log (c - suc dummy.index) ≡ some e)
      × (e.index ≡ suc dummy.index + (c - suc dummy.index))
  last_compacted = entry_at (suc dummy.index) (c - suc dummy.index) log v.consecutive (omega arith)

  abbrev after : MemoryStorage
  after = holding ms (dummy_of c last_compacted.0.term) (drop (c - dummy.index) log)

  compact-after : compact ms c ≡ ok after
  compact-after =
      ap (λ s. compact s c) (holding-eq ms v)
      ∙ ground (arith, compact-holding ms dummy log v.bounded v.consecutive c, last_compacted)

  abbrev after-IsValid : IsValid after
  after-IsValid =
      holding-IsValid ms v (dummy_of c last_compacted.0.term) (drop (c - dummy.index) log)
        (Consecutive-drop (suc dummy.index) (suc c) (c - dummy.index) log (omega arith)
          v.consecutive)
        (omega (arith, length-drop (c - dummy.index) log))
        (omega (arith, length-drop (c - dummy.index) log))

  term_in-after :
      (j : ℕ)
      → c ≤ j
      → term_in (dummy_of c last_compacted.0.term) (drop (c - dummy.index) log) j
        ≡ term_in dummy log j
  term_in-after j h = ground (
    arith,
    last_compacted,
    get_elem?-cons (j - dummy.index) dummy log,
    get_elem?-cons (j - c) (dummy_of c last_compacted.0.term) (drop (c - dummy.index) log),
    get_elem?-drop (c - dummy.index) (j - c - 1) log,
  )

  segment-after :
      (lo hi : ℕ)
      → c < lo
      → lo ≤ hi
      → segment (lo - suc c) (hi - suc c) (drop (c - dummy.index) log)
        ≡ segment (lo - suc dummy.index) (hi - suc dummy.index) log
  segment-after lo hi h k =
      let p : hi - suc c - (lo - suc c) ≡ hi - suc dummy.index - (lo - suc dummy.index) =
        omega arith in
      let q : c - dummy.index + (lo - suc c) ≡ lo - suc dummy.index = omega arith in
      rw (drop-drop (lo - suc c) (c - dummy.index) log, p, q)

  -- `Compact` to an index `c` that a valid storage holds succeeds and leaves a valid storage that
  -- begins behind `c`, ends where it did, answers `Term` as before from `c` on (up to 2^63 indices
  -- ahead) and `Entries` as before for every range that begins above `c` and is not empty.
  pub compact-keeps :
      (j lo hi max_size : ℕ)
      → c ≤ j
      → j < u64_mod
      → j < dummy.index + 2 ^ 63
      → c < lo
      → lo < hi
      → hi ≤ dummy.index + length log + 1
      → (ms' : MemoryStorage) × (compact ms c ≡ ok ms')
        × IsValid ms'
        × (first_index ms' ≡ ok (c + 1))
        × (last_index ms' ≡ last_index ms)
        × (term ms' j ≡ term ms j)
        × (entries ms' lo hi max_size ≡ entries ms lo hi max_size)
  compact-keeps j lo hi m p w k q r s = (
    after,
    compact-after,
    after-IsValid,
    first_index-eq after after-IsValid,
    last_index-eq after after-IsValid
        ∙ ap ok (omega (arith, length-drop (c - dummy.index) log))
        ∙ sym (last_index-eq ms v),
    term-eq after after-IsValid j w (omega arith) ∙ term_in-after j p ∙ sym (term-eq ms v j w k),
    entries-eq after after-IsValid lo hi m q (omega arith)
          (omega (arith, length-drop (c - dummy.index) log))
          (omega (arith, length-drop (c - dummy.index) log))
        ∙ ap (λ es. ok (limit_size es m)) (segment-after lo hi q (omega arith))
        ∙ sym (entries-eq ms v lo hi m (omega arith) (omega arith) s (omega arith)),
  )

-- `Compact` to an index that is compacted already, or is at the first entry, reports it.
compact-compacted :
    (ms : MemoryStorage) (v : IsValid ms) (c : ℕ) → c ≤ v.dummy.index → compact ms c ≡ err compacted
unfolding compact
compact-compacted ms v c h = ground arith
