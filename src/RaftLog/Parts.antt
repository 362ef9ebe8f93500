-- ===== src/RaftLog/Parts.antt =====
-- The two parts of a slice of the raft log: that of the storage and that in memory.
use native.Mathlib.Decide.{dec_lt}
use etcd_cr.Common.{
  ℕ, suc, ◌+◌, ◌-◌, ◌≤◌, ◌<◌, ◌≡◌, sym, ap, ◌∙◌, Option, none, some, List, [], ◌++◌, arith, length,
  ok, Result, if◌then◌else◌, ltb, ◌==◌, not, ◌∷◌, segment, segment-take,
}
use etcd_cr.Raftpb.{Entry, Snapshot}
use etcd_cr.Util.{limit_size}
use etcd_cr.Util.Laws.{limit_size-append, limit_size_full, length-limit_size-le}
use etcd_cr.RaftLog.{only_compacted}
use etcd_cr.RaftLog.View.{start_of, stable_part, Joined}

-- The entries that a range has in the storage, where the storage answers `r` in range.
pub stored-eq :
    (s : Option Snapshot) (o : ℕ) (d : Entry) (log : List Entry) (a c m : ℕ)
    (r : Result (List Entry))
    → Joined s o d log
    → (start_of s d).index < a
    → a < o
    → c ≤ o
    → (d.index < a
        → c ≤ d.index + length log + 1
        → 0 < length log
        → r ≡ ok (limit_size (segment (a - suc d.index) (c - suc d.index) log) m))
    → only_compacted r
      ≡ ok (
          limit_size
            (segment
              (a - suc (start_of s d).index)
              (c - suc (start_of s d).index)
              (stable_part s o d log))
            m)
stored-eq none o d log a c m r (j, k) p q h law =
    ap only_compacted (law p (omega arith) (omega arith))
    ∙ ap (λ es. ok (limit_size es m))
        (sym (segment-take (a - suc d.index) (c - suc d.index) (o - suc d.index) log (omega arith)))
stored-eq (some s) o d log a c m r j p q h law = absurd (omega arith)

-- A limit on the first part and then on the whole is the limit on the whole.
pub limit-parts :
    (xs ys : List Entry) (m n : ℕ)
    → length xs ≡ n
    → (if ltb (length (limit_size xs m)) n
        then limit_size xs m
        else limit_size (limit_size xs m ++ ys) m)
      ≡ limit_size (xs ++ ys) m
limit-parts xs ys m n e = elim (dec_lt (length (limit_size xs m)) (length xs)) [
  | yes cut ↦ ground (arith, limit_size-append xs ys m)
  | no whole ↦ ground (arith, limit_size_full xs m, length-limit_size-le xs m)
]

pub limited_empty :
    (es : List Entry) (m k n : ℕ)
    → length es ≡ k - n
    → ltb n k ≡ not (length (limit_size es m) == 0)
unfolding limit_size
limited_empty [] m k n e = ground arith
limited_empty (e ∷ es) m k n h = ground arith
