-- ===== src/Storage/Writes.antt =====
-- What each method that changes a valid `MemoryStorage` does, on every branch.
use etcd_cr.Common.{
  ℕ, zero, suc, ◌+◌, ◌^◌, ◌-◌, ◌<◌, ◌≡◌, refl, sym, ap, subst, List, [], ◌∷◌, ◌++◌, arith, length,
  ok, err, panic, u64_mod, add64, sub64, add64-eq, sub64-eq, none, some, if◌then◌else◌, leb,
  get_elem?, take, drop, compacted, get_elem?_ge, take_of_length-le, length-drop, drop-cons,
  take-cons, get_elem?-cons,
}
use etcd_cr.Raftpb.{Entry}
use etcd_cr.Entries.{Consecutive, overwrite, entry_at, Consecutive-overwrite, length-overwrite}
use etcd_cr.Storage.{MemoryStorage, zero_entry, first_index, append, append_at, compact}
use etcd_cr.Storage.Valid.{IsValid, holding, holding-eq}
use native.Mathlib.Decide.{dec_le}

-- The first entry after the storage is compacted at, or restored to, an index with a term.
abbrev pub dummy_of : ℕ → ℕ → Entry
dummy_of index term = record zero_entry { term = term; index = index }

module _ (ms : MemoryStorage) (dummy : Entry) (log : List Entry)
    (bounded : dummy.index + length log + 1 < u64_mod) where
  append_at-holding :
      (e : Entry) (es : List Entry)
      → dummy.index < e.index
      → e.index < u64_mod
      → append_at (holding ms dummy log) dummy.index (e ∷ es) ≡ (
          if leb e.index (dummy.index + length log + 1)
          then ok (holding ms dummy (take (e.index - suc dummy.index) log ++ e ∷ es))
          else panic)
  unfolding append_at
  append_at-holding e es h k = ground (
    arith,
    sub64-eq e.index dummy.index,
    take-cons (e.index - dummy.index) dummy log,
    take_of_length-le (e.index - suc dummy.index) log,
  )

drop-head :
    (i k : ℕ) (xs : List Entry)
    → Consecutive i xs
    → k < length xs
    → (e : Entry) × (r : List Entry) × (drop k xs ≡ e ∷ r) × (e.index ≡ i + k)
drop-head i k [] p h = absurd (omega arith)
drop-head i zero (x ∷ xs) p h = (x, xs, refl, omega arith)
drop-head i (suc k) (x ∷ xs) p h =
    let (e, r, d, q) = drop-head (suc i) k xs p.1 (omega arith) in (e, r, d, omega arith)

module _ (ms : MemoryStorage) (dummy : Entry) (log : List Entry)
    (bounded : dummy.index + length log + 1 < u64_mod) (e : Entry) (es : List Entry)
    (run : Consecutive e.index (e ∷ es)) (fits : e.index + length (e ∷ es) < u64_mod) where
  append-holding : append (holding ms dummy log) (e ∷ es) ≡ (
      if leb (e.index + length es) dummy.index
      then ok (holding ms dummy log)
      else (if leb e.index (dummy.index + length log + 1)
          then ok (holding ms dummy (overwrite dummy.index log e.index (e ∷ es)))
          else panic))
  unfolding append first_index
  append-holding = elim (dec_le (e.index + length es) dummy.index) [
    | yes stale ↦ ground (arith, first, last)
    | no new ↦ elim (dec_le e.index dummy.index) [
      | yes over ↦
          let k = dummy.index + 1 - e.index in
          let (x, r, d, q) = drop-head e.index k (e ∷ es) run (omega arith) in
          ground (
            arith,
            first,
            last,
            sub64-eq (dummy.index + 1) e.index,
            take_of_length-le (suc (length es) - k) (drop k (e ∷ es)),
            length-drop k (e ∷ es),
            append_at-holding ms dummy log bounded x r,
          )
      | no above ↦ ground (arith, first, last, append_at-holding ms dummy log bounded e es)
    ]
  ]
    where
      first : add64 dummy.index 1 ≡ dummy.index + 1
      first = add64-eq dummy.index 1 (omega arith)

      last : sub64 (add64 e.index (length (e ∷ es))) 1 ≡ e.index + length es
      last =
          ground (arith, add64-eq e.index (length (e ∷ es)), sub64-eq (e.index + length (e ∷ es)) 1)

module _ (ms : MemoryStorage) (v : IsValid ms) where
  open v use {dummy, log}

  -- `Append` of consecutive entries `e ∷ es` to a valid storage: entries that end at or below the
  -- first entry of the storage change nothing; entries that begin at most one past the last index
  -- replace what the storage has from their first index on, without those that it has compacted;
  -- entries that would leave a gap panic.
  pub append_stored-overwrite :
      (e : Entry) (es : List Entry)
      → Consecutive e.index (e ∷ es)
      → e.index + length (e ∷ es) < u64_mod
      → append ms (e ∷ es) ≡ (
          if leb (e.index + length es) dummy.index
          then ok ms
          else (if leb e.index (dummy.index + length log + 1)
              then ok (holding ms dummy (overwrite dummy.index log e.index (e ∷ es)))
              else panic))
  append_stored-overwrite e es run fits = rw (ap (λ s. append s (e ∷ es)) (holding-eq ms v)) (
      rw (append-holding ms dummy log v.bounded e es run fits) (λ i.
        if leb (e.index + length es) dummy.index
        then ok (sym (holding-eq ms v) i)
        else (if leb e.index (dummy.index + length log + 1)
            then ok (holding ms dummy (overwrite dummy.index log e.index (e ∷ es)))
            else panic)))

  abbrev pub holding-IsValid :
      (base : Entry) (es : List Entry)
      → Consecutive (suc base.index) es
      → base.index + length es + 1 < u64_mod
      → length es + 1 < 2 ^ 63
      → IsValid (holding ms base es)
  holding-IsValid base es c b s = record {
    dummy = base;
    log = es;
    shape = refl;
    consecutive = c;
    bounded = b;
    small = s;
  }

  -- `Append` of consecutive entries keeps the invariant of a valid storage, as long as the
  -- indices stay below 2^64 and the length below 2^63.
  pub append-IsValid :
      (e : Entry) (es : List Entry)
      → Consecutive e.index (e ∷ es)
      → e.index + length (e ∷ es) < u64_mod
      → e.index + length (e ∷ es) < dummy.index + 2 ^ 63
      → {ms' : MemoryStorage} → append ms (e ∷ es) ≡ ok ms'
      → IsValid ms'
  append-IsValid e es run fits small {ms'} h = elim (dec_le (e.index + length es) dummy.index) [
    | yes stale ↦
        let p : ms ≡ ms' = ground (arith, append_stored-overwrite e es run fits) in
        subst IsValid p v
    | no new ↦ elim (dec_le e.index (dummy.index + length log + 1)) [
      | yes joins ↦
          let joined = overwrite dummy.index log e.index (e ∷ es) in
          let p : holding ms dummy joined ≡ ms' =
            ground (arith, append_stored-overwrite e es run fits) in
          let n = length-overwrite dummy.index log e.index (e ∷ es) in
          subst IsValid p (
            holding-IsValid dummy joined
              (Consecutive-overwrite dummy.index log e.index (e ∷ es) (omega arith) (omega arith)
                v.consecutive run)
              (omega (arith, n)) (omega (arith, n)))
      | no gap ↦ absurd (ground (arith, append_stored-overwrite e es run fits))
    ]
  ]

module _ (ms : MemoryStorage) (dummy : Entry) (log : List Entry)
    (bounded : dummy.index + length log + 1 < u64_mod)
    (consecutive : Consecutive (suc dummy.index) log) where
  pub compact-holding :
      (i : ℕ)
      → i < u64_mod
      → compact (holding ms dummy log) i ≡ (
          if leb i dummy.index then err compacted else (elim (get_elem? log (i - suc dummy.index)) [
            | none ↦ panic
            | some e ↦ ok (holding ms (dummy_of i e.term) (drop (i - dummy.index) log))
          ]))
  unfolding compact
  compact-holding i w =
      let k = i - dummy.index in
      let k' = i - suc dummy.index in
      ground (
        arith,
        add64-eq dummy.index (length (dummy ∷ log)),
        sub64-eq (dummy.index + length (dummy ∷ log)) 1,
        sub64-eq i dummy.index,
        add64-eq k 1,
        get_elem?-cons k dummy log,
        entry_at (suc dummy.index) k' log consecutive,
        get_elem?_ge k' log,
        drop-cons (k + 1) dummy log,
        take_of_length-le (length log - k) (drop k log),
        length-drop k log,
      )
