-- ===== src/Storage/Laws.antt =====
-- What a client of the `Storage` interface relies on, and that `MemoryStorage` provides it.
use etcd_cr.Common.{
  ℕ, suc, ◌+◌, ◌-◌, ◌≤◌, ◌<◌, ◌≡◌, ◌∙◌, List, ◌∷◌, some, arith, length, ok, u64_mod, get_elem?,
  segment, get_elem?-some,
}
use etcd_cr.Raftpb.{Entry}
use etcd_cr.Util.{limit_size}
use etcd_cr.Entries.{Consecutive}
use etcd_cr.Storage.{Storage, MemoryStorage, memory_storage}
use etcd_cr.Storage.Valid.{IsValid, first_index-eq, last_index-eq, term-eq, entries-eq}

-- A valid storage stands for the entries `log`, with consecutive indices above that of `dummy`,
-- whose term is known. The methods report these entries, their terms and their bounds.
pub record StorageLaws (S : Type 0) ⦃st : Storage S⦄ : Type 1 where
  pub Valid : S → Type 0
  pub dummy : {s : S} → Valid s → Entry
  pub log : {s : S} → Valid s → List Entry
  pub consecutive : {s : S} (v : Valid s) → Consecutive (suc (dummy v).index) (log v)
  pub bounded : {s : S} (v : Valid s) → (dummy v).index + length (log v) + 1 < u64_mod
  pub first_index_law : {s : S} (v : Valid s) → st.first_index s ≡ ok ((dummy v).index + 1)
  pub last_index_law :
      {s : S} (v : Valid s) → st.last_index s ≡ ok ((dummy v).index + length (log v))
  pub term_law :
      {s : S} (v : Valid s) (i : ℕ) (e : Entry)
      → (dummy v).index ≤ i
      → get_elem? (dummy v ∷ log v) (i - (dummy v).index) ≡ some e
      → st.term s i ≡ ok e.term
  pub entries_law :
      {s : S} (v : Valid s) (lo hi max_size : ℕ)
      → (dummy v).index < lo
      → lo ≤ hi
      → hi ≤ (dummy v).index + length (log v) + 1
      → 0 < length (log v)
      → st.entries s lo hi max_size
        ≡ ok (
            limit_size
              (segment (lo - suc (dummy v).index) (hi - suc (dummy v).index) (log v))
              max_size)

pub term_law_of :
    {ms : MemoryStorage} (v : IsValid ms) (i : ℕ) (e : Entry)
    → v.dummy.index ≤ i
    → get_elem? (v.dummy ∷ v.log) (i - v.dummy.index) ≡ some e
    → memory_storage.term ms i ≡ ok e.term
term_law_of {ms} v i e h f =
    let inside = get_elem?-some (i - v.dummy.index) (v.dummy ∷ v.log) f in
    let bound = v.bounded in
    let small = v.small in term-eq ms v i (omega arith) (omega arith) ∙ ground (arith, f)

-- `MemoryStorage` keeps the promises of the interface.
abbrev pub memory_storage_laws : StorageLaws MemoryStorage
memory_storage_laws = record {
  Valid = IsValid;
  dummy = λ v. v.dummy;
  log = λ v. v.log;
  consecutive = λ v. v.consecutive;
  bounded = λ v. v.bounded;
  first_index_law = λ {s} v. first_index-eq s v;
  last_index_law = λ {s} v. last_index-eq s v;
  term_law = λ {s} v. term_law_of v;
  entries_law = λ {s} v. entries-eq s v;
}
