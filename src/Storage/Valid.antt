-- ===== src/Storage/Valid.antt =====
-- The invariant of `MemoryStorage`, and what each read returns on a valid storage.
use etcd_cr.Common.{
  ℕ, suc, ◌+◌, ◌^◌, ◌-◌, ◌≤◌, ◌<◌, ◌≡◌, ap, ◌∙◌, List, ◌∷◌, arith, length, Result, ok, err, u64_mod,
  add64-eq, sub64-eq, none, some, if◌then◌else◌, ltb, get_elem?, segment, compacted, unavailable,
  get_elem?_lt, get_elem?_ge, segment-cons,
}
use etcd_cr.Raftpb.{Entry}
use etcd_cr.Util.{limit_size}
use etcd_cr.Entries.{Consecutive}
use etcd_cr.Storage.{MemoryStorage, first_index, last_index, term, entries}

-- The first entry of `ents` stands for the last index that a snapshot covers; the entries behind
-- it have the following indices, and no index is so large that arithmetic on it wraps.
pub record IsValid (ms : MemoryStorage) : Type 0 where
  pub dummy : Entry
  pub log : List Entry
  pub shape : ms.ents ≡ dummy ∷ log
  pub consecutive : Consecutive (suc dummy.index) log
  pub bounded : dummy.index + length log + 1 < u64_mod
  pub small : length log + 1 < 2 ^ 63

-- The term at index `i` of a log whose first entry `dummy` stands below it.
abbrev pub term_in : Entry → List Entry → ℕ → Result ℕ
term_in dummy log i =
    if ltb i dummy.index then err compacted else (elim (get_elem? (dummy ∷ log) (i - dummy.index)) [
      | none ↦ err unavailable
      | some e ↦ ok e.term
    ])

-- The storage `ms` with the given entries.
abbrev pub holding : MemoryStorage → Entry → List Entry → MemoryStorage
holding ms dummy log = record ms { ents = dummy ∷ log }

pub holding-eq : (ms : MemoryStorage) (v : IsValid ms) → ms ≡ holding ms v.dummy v.log
holding-eq ms v = λ i. record ms { ents = v.shape i }

module _ (ms : MemoryStorage) (dummy : Entry) (log : List Entry)
    (bounded : dummy.index + length log + 1 < u64_mod) (small : length log + 1 < 2 ^ 63) where
  term-holding :
      (i : ℕ)
      → i < u64_mod
      → i < dummy.index + 2 ^ 63
      → term (holding ms dummy log) i ≡ term_in dummy log i
  unfolding term
  term-holding i w h = ground (
    arith,
    sub64-eq i dummy.index,
    get_elem?_ge (i - dummy.index) (dummy ∷ log),
    get_elem?_lt (i - dummy.index) (dummy ∷ log),
  )

  entries-holding :
      (lo hi max_size : ℕ)
      → dummy.index < lo
      → lo ≤ hi
      → hi ≤ dummy.index + length log + 1
      → 0 < length log
      → entries (holding ms dummy log) lo hi max_size
        ≡ ok (limit_size (segment (lo - dummy.index) (hi - dummy.index) (dummy ∷ log)) max_size)
  unfolding entries
  entries-holding lo hi m p q r s = ground (
    arith,
    add64-eq dummy.index (length (dummy ∷ log)),
    sub64-eq (dummy.index + length (dummy ∷ log)) 1,
    add64-eq (dummy.index + length (dummy ∷ log) - 1) 1,
    sub64-eq lo dummy.index,
    sub64-eq hi dummy.index,
  )

module _ (ms : MemoryStorage) (v : IsValid ms) where
  open v use {dummy, log}

  pub first_index-eq : first_index ms ≡ ok (dummy.index + 1)
  unfolding first_index
  first_index-eq = ground (arith, add64-eq dummy.index 1)

  pub last_index-eq : last_index ms ≡ ok (dummy.index + length log)
  unfolding last_index
  last_index-eq = ground (
    arith,
    add64-eq dummy.index (length (dummy ∷ log)),
    sub64-eq (dummy.index + length (dummy ∷ log)) 1,
  )

  pub term-eq : (i : ℕ) → i < u64_mod → i < dummy.index + 2 ^ 63 → term ms i ≡ term_in dummy log i
  term-eq i w h =
      ap (λ s. term s i) (holding-eq ms v) ∙ term-holding ms dummy log v.bounded v.small i w h

  pub entries-eq :
      (lo hi max_size : ℕ)
      → dummy.index < lo
      → lo ≤ hi
      → hi ≤ dummy.index + length log + 1
      → 0 < length log
      → entries ms lo hi max_size
        ≡ ok (limit_size (segment (lo - suc dummy.index) (hi - suc dummy.index) log) max_size)
  entries-eq lo hi m p q r s =
      let e : lo - dummy.index - 1 ≡ lo - suc dummy.index = omega arith in
      let e' : hi - dummy.index - 1 ≡ hi - suc dummy.index = omega arith in
      rw (← e, ← e', ← segment-cons (lo - dummy.index) (hi - dummy.index) dummy log (omega arith))
        (ap (λ t. entries t lo hi m) (holding-eq ms v)
          ∙ entries-holding ms dummy log v.bounded v.small lo hi m p q r s)
