-- ===== src/WaitTime/Waking.antt =====
-- The waits of pkg/wait/wait_time.go, over any run of `Wait` and `Trigger`.
use etcd_cr.Common.{
  ℕ, suc, ◌≤◌, ◌<◌, ◌≡◌, refl, sym, ap, subst, ◌∙◌, Bool, true, false, ◌||◌, Option, none, some, ok,
  leb, arith, Bool-cases, Option-cases, inl, inr, leb→le, ok_injective,
}
use etcd_cr.Common.Maps.{lookup, insert, has, lookup-insert_same}
use etcd_cr.WaitTime.{TimeList, new_time_list, wait, trigger}
use etcd_cr.WaitTime.Deadlines.{
  channels, Open, later, due, close_due-eq, lookup-later, has-due, has-due_later, has-due_closed,
  has-due_other, Open-later, Open-insert, has-channels-insert, has-channels-later,
}

pub data Reached : TimeList → Type 0 where
  at_start : Reached new_time_list
  waited : (deadline : ℕ) (tl : TimeList) → Reached tl → Reached (wait deadline tl).1
  triggered :
      (deadline : ℕ) (tl tl' : TimeList) → Reached tl → trigger deadline tl ≡ ok tl' → Reached tl'

record IsValid (tl : TimeList) : Type 0 where
  apart : Open tl.m tl.closed
  closec : has 0 tl.closed ≡ true
  closed_made : (ch : ℕ) → tl.made ≤ ch → has ch tl.closed ≡ false
  waiting_made : (ch : ℕ) → tl.made ≤ ch → has ch (channels tl.m) ≡ false

after_trigger : ℕ → TimeList → TimeList
after_trigger e tl = record tl {
  last_trigger_deadline = e;
  m = later e tl.m;
  closed = due e tl.m tl.closed;
}

trigger-valid : (e : ℕ) (tl : TimeList) → IsValid tl → trigger e tl ≡ ok (after_trigger e tl)
unfolding trigger after_trigger
trigger-valid e tl v = rw (close_due-eq e tl.m tl.closed v.apart) refl

IsValid-trigger : (e : ℕ) (tl : TimeList) → IsValid tl → IsValid (after_trigger e tl)
unfolding after_trigger
IsValid-trigger e tl v = record {
  apart = Open-later e tl.m tl.closed v.apart;
  closec = has-due_closed e 0 tl.m tl.closed v.closec;
  closed_made =
      λ ch le. has-due_other e ch tl.m tl.closed (v.waiting_made ch le) ∙ v.closed_made ch le;
  waiting_made = λ ch le. has-channels-later e ch tl.m (v.waiting_made ch le);
}

IsValid-new : IsValid new_time_list
unfolding new_time_list
IsValid-new = record {
  apart = tt;
  closec = refl;
  closed_made = λ ch le. ground arith;
  waiting_made = λ ch le. refl;
}

IsValid-inserted :
    (d : ℕ) (tl : TimeList)
    → lookup d tl.m ≡ none
    → IsValid tl
    → IsValid (record tl { m = insert d tl.made tl.m; made = suc tl.made })
IsValid-inserted d tl free v = record {
  apart =
      Open-insert d tl.made tl.m tl.closed free (v.waiting_made tl.made (omega arith))
        (v.closed_made tl.made (omega arith)) v.apart;
  closec = v.closec;
  closed_made = λ ch le. v.closed_made ch (omega arith);
  waiting_made = λ ch le.
      let old = v.waiting_made ch (omega arith) in
      ground (arith, has-channels-insert d tl.made ch tl.m free);
}

-- The outcomes of `Wait`.
waited_at : (past : Bool) (o : Option ℕ) (d : ℕ) (tl : TimeList) → ℕ × TimeList
waited_at true o d tl = (0, tl)
waited_at false none d tl = (tl.made, record tl { m = insert d tl.made tl.m; made = suc tl.made })
waited_at false (some ch) d tl = (ch, tl)

wait-waited_at :
    (d : ℕ) (tl : TimeList)
    → wait d tl ≡ waited_at (leb d tl.last_trigger_deadline) (lookup d tl.m) d tl
unfolding wait waited_at
wait-waited_at d tl = elim (Bool-cases (leb d tl.last_trigger_deadline)) [
  | inl past ↦ rw (past, wait) refl
  | inr ahead ↦ elim (Option-cases (lookup d tl.m)) [
    | inl free ↦ rw (ahead, free, wait) refl
    | inr (_, waits) ↦ rw (ahead, waits, wait) refl
  ]
]

IsValid-waited :
    (past : Bool) (o : Option ℕ) (d : ℕ) (tl : TimeList)
    → lookup d tl.m ≡ o
    → IsValid tl
    → IsValid (waited_at past o d tl).1
unfolding waited_at
IsValid-waited true o d tl e v = v
IsValid-waited false none d tl e v = IsValid-inserted d tl e v
IsValid-waited false (some ch) d tl e v = v

IsValid-reached : (tl : TimeList) → Reached tl → IsValid tl
IsValid-reached _ at_start = IsValid-new
IsValid-reached _ (waited d tl r) =
    subst (λ p. IsValid p.1) (sym (wait-waited_at d tl))
      (IsValid-waited (leb d tl.last_trigger_deadline) (lookup d tl.m) d tl refl
        (IsValid-reached tl r))
IsValid-reached _ (triggered e tl tl' r h) =
    let v = IsValid-reached tl r in
    subst IsValid (ok_injective (sym (trigger-valid e tl v) ∙ h)) (IsValid-trigger e tl v)

woken_known :
    (d e ch : ℕ) (tl : TimeList)
    → IsValid tl
    → lookup d tl.m ≡ some ch
    → has ch (due e tl.m tl.closed) ≡ leb d e
woken_known d e ch tl v l = elim (Bool-cases (leb d e)) [
  | inl soon ↦ has-due e d ch tl.m tl.closed l (leb→le d e soon) ∙ sym soon
  | inr late ↦ has-due_later e d ch tl.m tl.closed v.apart l (ground arith) ∙ sym late
]

-- `Trigger` wakes the waits up to its deadline and keeps the others waiting.
trigger-wakes :
    (e : ℕ) (tl : TimeList)
    → Reached tl
    → (tl' : TimeList) × (trigger e tl ≡ ok tl')
      × ((d ch : ℕ)
          → lookup d tl.m ≡ some ch
          → (has ch tl'.closed ≡ leb d e) × (e < d → lookup d tl'.m ≡ some ch))
unfolding after_trigger
trigger-wakes e tl r =
    let v = IsValid-reached tl r in
    (
      after_trigger e tl,
      trigger-valid e tl v,
      λ d ch l. (woken_known d e ch tl v l, lookup-later e d ch tl.m l),
    )

-- The channel that `Wait` returns, after the next `Trigger`.
woken :
    (past : Bool) (o : Option ℕ) (d e : ℕ) (tl : TimeList)
    → leb d tl.last_trigger_deadline ≡ past
    → lookup d tl.m ≡ o
    → IsValid tl
    → has (waited_at past o d tl).0 (due e (waited_at past o d tl).1.m tl.closed)
      ≡ (past || leb d e)
unfolding waited_at
woken true o d e tl p l v = has-due_closed e 0 tl.m tl.closed v.closec
woken false none d e tl p l v =
    woken_known d e tl.made (record tl { m = insert d tl.made tl.m; made = suc tl.made })
      (IsValid-inserted d tl l v) (lookup-insert_same d tl.made tl.m)
woken false (some ch) d e tl p l v = woken_known d e ch tl v l

closed-waited_at :
    (past : Bool) (o : Option ℕ) (d : ℕ) (tl : TimeList)
    → (waited_at past o d tl).1.closed ≡ tl.closed
unfolding waited_at
closed-waited_at true o d tl = refl
closed-waited_at false none d tl = refl
closed-waited_at false (some ch) d tl = refl

-- In any run of `Wait` and `Trigger`, a channel that `Wait` returns for a deadline is closed after
-- the next `Trigger` exactly if the deadline is at or below that of this `Trigger` or of the last
-- one before `Wait`; and `Trigger` closes no channel twice, so it does not panic.
pub wait-woken :
    (d e : ℕ) (tl : TimeList)
    → Reached tl
    → (tl' : TimeList) × (trigger e (wait d tl).1 ≡ ok tl')
      × (has (wait d tl).0 tl'.closed ≡ (leb d tl.last_trigger_deadline || leb d e))
unfolding after_trigger
wait-woken d e tl r =
    let v = IsValid-reached tl r in
    let past = leb d tl.last_trigger_deadline in
    let o = lookup d tl.m in
    (
      after_trigger e (wait d tl).1,
      trigger-valid e (wait d tl).1 (IsValid-reached (wait d tl).1 (waited d tl r)),
      subst (λ p. has p.0 (due e p.1.m p.1.closed) ≡ (past || leb d e)) (sym (wait-waited_at d tl))
          (ap (λ c. has (waited_at past o d tl).0 (due e (waited_at past o d tl).1.m c))
              (closed-waited_at past o d tl)
            ∙ woken past o d e tl refl refl v),
    )
