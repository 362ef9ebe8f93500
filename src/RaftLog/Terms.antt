-- ===== src/RaftLog/Terms.antt =====
-- `term` and `lastTerm` of a valid raft log.
use etcd_cr.Common.{
  ℕ, suc, ◌+◌, ◌-◌, ◌≤◌, ◌<◌, ◌≡◌, refl, sym, ap, ◌∙◌, Option, none, some, List, ◌∷◌, ◌++◌, arith,
  length, panic, length-take, take, ok, sub64-eq, Result, get_elem?, if◌then◌else◌, ltb, ◌||◌, ◌==◌,
  ◌>>=◌, zero, get_elem?-cons, get_elem?-take, get_elem?-append_left, get_elem?-append_right,
  get_elem?_lt,
}
use etcd_cr.Raftpb.{Entry, Snapshot}
use etcd_cr.Storage.{Storage}
use etcd_cr.Storage.Laws.{StorageLaws}
use native.Mathlib.Decide.{dec_lt}
use etcd_cr.Unstable.{Unstable, maybe_term}
use etcd_cr.Unstable.Laws
use etcd_cr.RaftLog.{RaftLog, term, last_term, passed_on}
use etcd_cr.RaftLog.View.{
  start_of, stable_part, Joined, IsValid, start, stable_log, view, offset-eq, length-view,
  first_index-eq, last_index-eq,
}

get_elem?-above :
    (b : Entry) (xs ys : List Entry) (k : ℕ)
    → length xs < k
    → get_elem? (b ∷ xs ++ ys) k ≡ get_elem? ys (k - suc (length xs))
get_elem?-above b xs ys k h =
    get_elem?-cons k b (xs ++ ys) (omega arith)
    ∙ get_elem?-append_right (k - 1) xs ys (omega arith)
    ∙ ap (get_elem? ys) (omega arith)

get_elem?-below :
    (b : Entry) (n k : ℕ) (xs ys : List Entry)
    → n ≤ length xs
    → k ≤ n
    → get_elem? (b ∷ take n xs ++ ys) k ≡ get_elem? (b ∷ xs) k
get_elem?-below b n zero xs ys h p = refl
get_elem?-below b n (suc k) xs ys h p =
    get_elem?-append_left k (take n xs) ys (omega (arith, length-take n xs))
    ∙ get_elem?-take n k xs (omega arith)

-- The end of `term`, where the storage answers `r`.
abbrev answer : Unstable → ℕ → Result ℕ → Result ℕ
answer u i r = do found ← maybe_term u i; elim found [ some t ↦ ok t | none ↦ passed_on r ]

maybe_term-below :
    (s : Option Snapshot) (es : List Entry) (o i : ℕ)
    → i < o
    → maybe_term (record { snapshot = s; entries = es; offset = o }) i
      ≡ ok (elim s [
        | none ↦ none
        | some x ↦ if x.metadata.index == i then some x.metadata.term else none
      ])
unfolding maybe_term
maybe_term-below s es o i h = ground arith

answer-below :
    (s : Option Snapshot) (es : List Entry) (o : ℕ) (d : Entry) (log : List Entry) (i : ℕ)
    (r : Result ℕ) (e : Entry)
    → Joined s o d log
    → i < o
    → (start_of s d).index ≤ i
    → get_elem? (start_of s d ∷ stable_part s o d log ++ es) (i - (start_of s d).index) ≡ some e
    → (d.index ≤ i → get_elem? (d ∷ log) (i - d.index) ≡ some e → r ≡ ok e.term)
    → answer (record { snapshot = s; entries = es; offset = o }) i r ≡ ok e.term
answer-below none es o d log i r e (a, b) h k g q = rw (maybe_term-below none es o i h) (
    rw
      (q k (
        sym (get_elem?-below d (o - suc d.index) (i - d.index) log es (omega arith) (omega arith))
        ∙ g))
      refl)
answer-below (some s) es o d log i r e j h k g q =
    rw (maybe_term-below (some s) es o i h) (ground (arith, g))

module _ {S : Type 0} ⦃st : Storage S⦄ (laws : StorageLaws S) (l : RaftLog S)
    (v : IsValid laws l) where
  open l use {unstable}

  abbrev lo : Entry
  lo = start laws l v

  abbrev entries : List Entry
  entries = view laws l v

  term_inside :
      (i : ℕ) (e : Entry)
      → lo.index ≤ i
      → i ≤ lo.index + length entries
      → get_elem? (lo ∷ entries) (i - lo.index) ≡ some e
      → answer unstable i (st.term l.storage i) ≡ ok e.term
  term_inside i e p q g = elim (dec_lt i unstable.offset) [
    | yes low ↦
        answer-below unstable.snapshot unstable.entries unstable.offset (laws.dummy v.stored)
          (laws.log v.stored) i (st.term l.storage i) e v.joined low p g
          (λ a b. laws.term_law v.stored i e a b)
    | no high ↦
        let here = offset-eq laws l v in
        let k : i - lo.index - suc (length (stable_log laws l v)) ≡ i - unstable.offset =
          omega arith in
        let found : get_elem? unstable.entries (i - unstable.offset) ≡ some e =
          ap (get_elem? unstable.entries) (sym k)
          ∙ sym (
              get_elem?-above lo (stable_log laws l v) unstable.entries (i - lo.index)
                (omega arith))
          ∙ g in
        let total = length-view laws l v in
        let bound = v.unstable_valid.bounded in
        ground (
          arith,
          found,
          Laws.maybe_term-entry unstable v.unstable_valid i (omega arith) (omega arith),
        )
  ]

  term_found :
      (i : ℕ)
      → lo.index ≤ i
      → i ≤ lo.index + length entries
      → (e : Entry) × (get_elem? (lo ∷ entries) (i - lo.index) ≡ some e)
        × (answer unstable i (st.term l.storage i) ≡ ok e.term)
  term_found i p q =
      let (e, g) = get_elem?_lt (i - lo.index) (lo ∷ entries) (omega arith) in
      (e, g, term_inside i e p q g)

  -- `term` of a valid raft log: inside the log, and at the index below its first, the term of the
  -- entry there; outside, 0. It never fails and never panics.
  pub term-eq :
      (i : ℕ)
      → term l i ≡ (
          if ltb i lo.index || ltb (lo.index + length entries) i
          then ok 0
          else (elim (get_elem? (lo ∷ entries) (i - lo.index)) [
            | none ↦ panic
            | some e ↦ ok e.term
          ]))
  unfolding term
  term-eq i =
      let bound = v.unstable_valid.bounded in
      let total = length-view laws l v in
      rw
        (
          first_index-eq laws l v,
          last_index-eq laws l v,
          sub64-eq (lo.index + 1) 1 (omega arith) (omega arith),
        )
        (ground (arith, term_found i))

  -- The last term is that of the last entry of the log, or of the entry below the first index.
  last_term-eq :
      (e : Entry) → get_elem? (lo ∷ entries) (length entries) ≡ some e → last_term l ≡ ok e.term
  unfolding last_term
  last_term-eq e g =
      let k : lo.index + length entries - lo.index ≡ length entries = omega arith in
      rw (last_index-eq laws l v) (rw (term-eq (lo.index + length entries), k, g) (ground arith))
