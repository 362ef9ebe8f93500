-- ===== src/RaftLog/Appends.antt =====
-- `append` on a valid raft log.
use etcd_cr.Common.{
  ℕ, suc, ◌+◌, ◌-◌, ◌≤◌, ◌<◌, ◌≡◌, refl, sym, ap, ◌∙◌, Option, none, some, List, [], ◌∷◌, ◌++◌,
  arith, length, min, take, length-append, length-take, ok, panic, u64_mod, sub64-eq, append_assoc,
  take-append, take-take, take-nil,
}
use etcd_cr.Raftpb.{Entry, Snapshot}
use etcd_cr.Entries.{Consecutive, overwrite, take-overwrite}
use etcd_cr.Storage.{Storage}
use etcd_cr.Storage.Laws.{StorageLaws}
use etcd_cr.Unstable.Laws
use etcd_cr.RaftLog.{RaftLog, append}
use etcd_cr.RaftLog.View.{
  start_of, stable_part, Joined, Settled, IsValid, start, stable_log, view, offset-eq, length-view,
  last_index-eq,
}

Below-start : (s : Option Snapshot) (d : Entry) (o : ℕ) → (start_of s d).index < o → Laws.Below s o
Below-start none d o h = tt
Below-start (some s) d o h = h

Joined-min :
    (s : Option Snapshot) (o : ℕ) (d : Entry) (log : List Entry) (f : ℕ)
    → (start_of s d).index < f
    → Joined s o d log
    → Joined s (min f o) d log
Joined-min none o d log f h (a, b) = omega arith
Joined-min (some s) o d log f h j = omega arith

Settled-append :
    (s : Option Snapshot) (xs : List Entry) (e : Entry) (es : List Entry) (o : ℕ) (d : Entry)
    (log : List Entry)
    → Settled s (xs ++ e ∷ es) o d log
Settled-append none [] e es o d log = tt
Settled-append none (x ∷ xs) e es o d log = tt
Settled-append (some s) xs e es o d log = tt

stable_part-min :
    (s : Option Snapshot) (o : ℕ) (d : Entry) (log : List Entry) (f : ℕ)
    → stable_part s (min f o) d log ≡ take (f - suc (start_of s d).index) (stable_part s o d log)
stable_part-min none o d log f =
    let e : min f o - suc d.index ≡ min (f - suc d.index) (o - suc d.index) = omega arith in
    ap (λ k. take k log) e ∙ sym (take-take (f - suc d.index) (o - suc d.index) log)
stable_part-min (some s) o d log f = sym (take-nil (f - suc s.metadata.index))

module _ {S : Type 0} ⦃st : Storage S⦄ (laws : StorageLaws S) (l : RaftLog S) (v : IsValid laws l)
    (e : Entry) (es : List Entry) (run : Consecutive e.index (e ∷ es))
    (fits : e.index + length (e ∷ es) < u64_mod) (new : l.committed < e.index)
    (joins : e.index ≤ l.unstable.offset + length l.unstable.entries) where
  open l use {unstable}

  abbrev base : ℕ
  base = (start laws l v).index

  -- The log after the append.
  abbrev appended : RaftLog S
  appended = record l { unstable = Laws.truncated unstable v.unstable_valid e es }

  above_base : base < e.index
  above_base = omega (arith, v.start_le, v.applied_le)

  abbrev appended-IsValid : IsValid laws appended
  appended-IsValid = record {
    stored = v.stored;
    unstable_valid =
        Laws.truncated-IsValid unstable v.unstable_valid e es run fits joins
          (Below-start unstable.snapshot (laws.dummy v.stored) e.index above_base);
    joined =
        Joined-min unstable.snapshot unstable.offset (laws.dummy v.stored) (laws.log v.stored)
          e.index above_base v.joined;
    settled =
        Settled-append unstable.snapshot (take (e.index - unstable.offset) unstable.entries) e es
          (min e.index unstable.offset) (laws.dummy v.stored) (laws.log v.stored);
    start_le = v.start_le;
    applied_le = v.applied_le;
    committed_lt = omega (
      arith,
      length-append (take (e.index - unstable.offset) unstable.entries) (e ∷ es),
      length-take (e.index - unstable.offset) unstable.entries,
    );
  }

  view-appended :
      view laws appended appended-IsValid ≡ overwrite base (view laws l v) e.index (e ∷ es)
  view-appended =
      let n = e.index - suc base in
      let xs = stable_log laws l v in
      let here = offset-eq laws l v in
      let p : e.index - unstable.offset ≡ n - length xs = omega arith in
      let q : suc base - e.index ≡ 0 = omega (arith, above_base) in
      rw q (
        ap (λ ys. ys ++ (take (e.index - unstable.offset) unstable.entries ++ e ∷ es))
          (stable_part-min unstable.snapshot unstable.offset (laws.dummy v.stored)
            (laws.log v.stored) e.index)
        ∙ ap (λ k. take n xs ++ (take k unstable.entries ++ e ∷ es)) p
        ∙ sym (append_assoc (take n xs) (take (n - length xs) unstable.entries) (e ∷ es))
        ∙ ap (λ ys. ys ++ e ∷ es) (sym (take-append n xs unstable.entries)))

  append-appended : append l (e ∷ es) ≡ ok (appended, e.index + length es)
  unfolding append
  append-appended =
      let k = length-view laws appended appended-IsValid in
      let j : start laws appended appended-IsValid ≡ start laws l v = refl in
      ground (
        arith,
        sub64-eq e.index 1,
        Laws.truncate_and_append-eq unstable v.unstable_valid e es,
        last_index-eq laws appended appended-IsValid,
        k,
        length-append (take (e.index - unstable.offset) unstable.entries) (e ∷ es),
        length-take (e.index - unstable.offset) unstable.entries,
      )

  -- `append` of consecutive entries `e ∷ es` above the commit index, at most one past the end of a
  -- valid log: the log keeps its entries below the first new index and has the new ones behind
  -- them, its start, commit and applied indices stay, it is valid, and the last new index is
  -- returned.
  pub append-overwrite :
      (l' : RaftLog S) × (v' : IsValid laws l') × (append l (e ∷ es) ≡ ok (l', e.index + length es))
      × (start laws l' v' ≡ start laws l v)
      × (view laws l' v' ≡ overwrite base (view laws l v) e.index (e ∷ es))
      × (l'.committed ≡ l.committed)
      × (l'.applied ≡ l.applied)
  append-overwrite = (appended, appended-IsValid, append-appended, refl, view-appended, refl, refl)

  -- `append` of consecutive entries above the commit index, at most one past the end of a valid log,
  -- returns a valid log with the same entries up to the commit index.
  append-keeps_committed :
      (l' : RaftLog S) × (v' : IsValid laws l') × (append l (e ∷ es) ≡ ok (l', e.index + length es))
      × (take (l.committed - base) (view laws l' v') ≡ take (l.committed - base) (view laws l v))
  append-keeps_committed = (
    appended,
    appended-IsValid,
    append-appended,
    ap (take (l.committed - base)) view-appended
        ∙ take-overwrite base (view laws l v) e.index (e ∷ es) (l.committed - base)
            (omega (arith, v.start_le, v.applied_le)) (omega (arith, length-view laws l v)),
  )

-- `append` of entries that begin at or below the commit index panics.
append-committed :
    {S : Type 0} ⦃st : Storage S⦄ (l : RaftLog S) (e : Entry) (es : List Entry)
    → 0 < e.index
    → e.index < u64_mod
    → e.index ≤ l.committed
    → append l (e ∷ es) ≡ panic
unfolding append
append-committed l e es p w h = ground (arith, sub64-eq e.index 1)
