-- ===== src/Unstable/Laws.antt =====
-- The invariant of the unstable log, and what each operation does under it.
use etcd_cr.Common.{
  ℕ, ◌+◌, ◌-◌, ◌≤◌, ◌<◌, ◌≡◌, subst, Option, none, some, List, ◌∷◌, ◌++◌, arith, length,
  length-take, length-append, length-drop, ok, panic, u64_mod, add64-eq, sub64-eq, get_elem?,
  segment, get_elem?_lt, get_elem?_ge, take, drop, min, take_of_length-le, if◌then◌else◌, leb, ◌==◌,
  ◌&&◌,
}
use etcd_cr.Raftpb.{Entry, Snapshot}
use etcd_cr.Entries.{Consecutive, Consecutive-take, Consecutive-append, Consecutive-drop}
use native.Mathlib.Decide.{dec_le}
use etcd_cr.Unstable.{Unstable, maybe_term, stable_to, slice_of, truncate_and_append}

-- The snapshot, where there is one, ends below the entries.
abbrev pub Below : Option Snapshot → ℕ → Type 0
Below none offset = Unit
Below (some s) offset = s.metadata.index < offset

-- The entries have consecutive indices from the offset on, and no index wraps.
pub record IsValid (u : Unstable) : Type 0 where
  pub consecutive : Consecutive u.offset u.entries
  pub bounded : u.offset + length u.entries < u64_mod
  pub below : Below u.snapshot u.offset

module _ (u : Unstable) (v : IsValid u) where
  open u use {snapshot, entries, offset}

  -- The term of the entry that the unstable log has at an index, if it has one there.
  abbrev pub term_found : ℕ → Option ℕ
  term_found i = elim (get_elem? entries (i - offset)) [ none ↦ none | some e ↦ some e.term ]

  -- `maybeTerm` above the offset never panics, and finds the term of the entry at the index.
  pub maybe_term-entry : (i : ℕ) → offset ≤ i → i < u64_mod → maybe_term u i ≡ ok (term_found i)
  unfolding maybe_term
  maybe_term-entry i h w = ground (
    arith,
    v.below,
    add64-eq offset (length entries),
    sub64-eq (offset + length entries) 1,
    sub64-eq i offset,
    get_elem?_lt (i - offset) entries,
    get_elem?_ge (i - offset) entries,
  )

  -- `truncateAndAppend` of entries that begin at most one past the last unstable entry keeps the
  -- entries below the first new index and appends the new ones; the offset moves down to that
  -- index if it lies lower. Entries that would leave a gap panic.
  pub truncate_and_append-eq :
      (e : Entry) (es : List Entry)
      → e.index < u64_mod
      → truncate_and_append u (e ∷ es) ≡ (
          if leb e.index (offset + length entries)
          then ok (record u {
            offset = min e.index offset;
            entries = take (e.index - offset) entries ++ e ∷ es;
          })
          else panic)
  unfolding truncate_and_append
  truncate_and_append-eq e es w = ground (
    arith,
    add64-eq offset (length entries),
    sub64-eq offset offset,
    sub64-eq e.index offset,
    take_of_length-le (e.index - offset) entries,
  )

  -- `stableTo` of an index and a term, on a valid unstable log: where the log has an entry of that
  -- term at that index, the entries up to it are dropped and the offset moves behind it; otherwise
  -- nothing changes. The index is below 2^64 - 1.
  pub stable_to-eq :
      (i t : ℕ)
      → i + 1 < u64_mod
      → stable_to u i t
        ≡ ok (elim (get_elem? entries (i - offset)) [
          | none ↦ u
          | some e ↦
              if leb offset i && e.term == t
              then record u { offset = i + 1; entries = drop (i + 1 - offset) entries }
              else u
        ])
  unfolding stable_to
  stable_to-eq i t w = ground (
    arith,
    v.below,
    add64-eq offset (length entries),
    sub64-eq (offset + length entries) 1,
    sub64-eq i offset,
    add64-eq i 1,
    sub64-eq (i + 1) offset,
    get_elem?_lt (i - offset) entries,
    get_elem?_ge (i - offset) entries,
    take_of_length-le (length entries - (i + 1 - offset)) (drop (i + 1 - offset) entries),
    length-drop (i + 1 - offset) entries,
  )

  Below-min : (s : Option Snapshot) (a b : ℕ) → Below s a → Below s b → Below s (min a b)
  Below-min none a b p q = tt
  Below-min (some s) a b p q = omega arith

  Below-le : (s : Option Snapshot) (a b : ℕ) → a ≤ b → Below s a → Below s b
  Below-le none a b h p = tt
  Below-le (some s) a b h p = omega arith

  -- The unstable log after `truncateAndAppend`.
  abbrev pub truncated : Entry → List Entry → Unstable
  truncated e es = record u {
    offset = min e.index offset;
    entries = take (e.index - offset) entries ++ e ∷ es;
  }

  -- `truncateAndAppend` of consecutive entries that leave no gap, above the snapshot, keeps the
  -- invariant.
  pub truncated-IsValid :
      (e : Entry) (es : List Entry)
      → Consecutive e.index (e ∷ es)
      → e.index + length (e ∷ es) < u64_mod
      → e.index ≤ offset + length entries
      → Below snapshot e.index
      → IsValid (truncated e es)
  truncated-IsValid e es run fits joins below = record {
    consecutive =
        Consecutive-append (min e.index offset) e.index (take (e.index - offset) entries) (e ∷ es)
          (omega (arith, length-take (e.index - offset) entries)) kept run;
    bounded = omega (
      arith,
      length-append (take (e.index - offset) entries) (e ∷ es),
      length-take (e.index - offset) entries,
    );
    below = Below-min snapshot e.index offset below v.below;
  }
    where
      kept : Consecutive (min e.index offset) (take (e.index - offset) entries)
      kept = elim (dec_le offset e.index) [
        | yes p ↦
            let q : offset ≡ min e.index offset = omega arith in
            subst (λ k. Consecutive k (take (e.index - offset) entries)) q
              (Consecutive-take offset (e.index - offset) entries v.consecutive)
        | no p ↦
            let q : 0 ≡ e.index - offset = omega arith in
            subst (λ k. Consecutive (min e.index offset) (take k entries)) q tt
      ]

  -- The unstable log after the entries up to index `i` are stable.
  abbrev pub stable : ℕ → Unstable
  stable i = record u { offset = i + 1; entries = drop (i + 1 - offset) entries }

  stable-IsValid : (i : ℕ) → offset ≤ i → i < offset + length entries → IsValid (stable i)
  stable-IsValid i p q = record {
    consecutive =
        Consecutive-drop offset (i + 1) (i + 1 - offset) entries (omega arith) v.consecutive;
    bounded = omega (arith, length-drop (i + 1 - offset) entries);
    below = Below-le snapshot offset (i + 1) (omega arith) v.below;
  }

  -- The entries of the unstable log in a range that it holds.
  pub slice_of-eq :
      (lo hi : ℕ)
      → offset ≤ lo
      → lo ≤ hi
      → hi ≤ offset + length entries
      → slice_of u lo hi ≡ ok (segment (lo - offset) (hi - offset) entries)
  unfolding slice_of
  slice_of-eq lo hi p q r =
      ground (arith, add64-eq offset (length entries), sub64-eq lo offset, sub64-eq hi offset)
