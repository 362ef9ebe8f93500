-- ===== src/Wait/Triggers.antt =====
-- `Register` and `Trigger` of pkg/wait/wait.go, one call after the other.
use etcd_cr.Common.{
  ℕ, ◌≡◌, refl, Bool, true, false, Option, none, some, inl, inr, Option-cases, if◌then◌else◌,
}
use etcd_cr.Common.Maps.{lookup, insert, delete}
use etcd_cr.Wait.Steps.{Handing, Reached}
use etcd_cr.Wait.Handover.{Separate-reached, handed_chans, hand_over-fresh}
use etcd_cr.Wait.{Chan, WaitList, sent, blocked, panicked, take_waiter, hand_over, trigger}

module _ {A : Type 0} where
  filled-m :
      (o : Option A) (w w' full : WaitList A)
      → full.m ≡ w.m
      → elim o [ none ↦ sent full | some _ ↦ blocked ] ≡ sent w'
      → w'.m ≡ w.m
  filled-m none w w' full e h = cc
  filled-m (some _) w w' full e h = cc

  open-m :
      (c : Chan A) (b : Bool) (w w' full : WaitList A)
      → full.m ≡ w.m
      → (if b then panicked else elim c.buffer [ none ↦ sent full | some _ ↦ blocked ]) ≡ sent w'
      → w'.m ≡ w.m
  open-m c true w w' full e h = cc
  open-m c false w w' full e h = filled-m c.buffer w w' full e h

  known-m :
      (o : Option (Chan A)) (w w' full : WaitList A)
      → full.m ≡ w.m
      → elim o [
        | none ↦ blocked
        | some c ↦
            if c.closed then panicked else elim c.buffer [ none ↦ sent full | some _ ↦ blocked ]
      ]
        ≡ sent w'
      → w'.m ≡ w.m
  known-m none w w' full e h = cc
  known-m (some c) w w' full e h = open-m c c.closed w w' full e h

  hand_over-m : (ch : ℕ) (x : A) (w w' : WaitList A) → hand_over ch x w ≡ sent w' → w'.m ≡ w.m
  unfolding hand_over
  hand_over-m ch x w w' h =
      known-m (lookup ch w.chans) w w'
        (record w { chans = insert ch (record { buffer = some x; closed = true }) w.chans }) refl h

  trigger_by :
      (o : Option ℕ) (x : A) (w w' : WaitList A)
      → elim o [ none ↦ sent w | some ch ↦ hand_over ch x w ] ≡ sent w'
      → w'.m ≡ w.m
  trigger_by none x w w' h = cc
  trigger_by (some ch) x w w' h = hand_over-m ch x w w' h

  -- A `Trigger` that returns takes the id out, and no other.
  pub trigger-m :
      (id : ℕ) (x : A) (w w' : WaitList A) → trigger id x w ≡ sent w' → w'.m ≡ delete id w.m
  unfolding trigger take_waiter
  trigger-m id x w w' h = trigger_by (lookup id w.m) x (record w { m = delete id w.m }) w' h

  -- `Trigger` returns, and the id waits no longer.
  pub trigger-returns :
      (id : ℕ) (x : A) (s : Handing A)
      → Reached s
      → (w : WaitList A) × (trigger id x s.list ≡ sent w) × (w.m ≡ delete id s.list.m)
  unfolding trigger take_waiter handed_chans
  trigger-returns id x s r =
      let taken : WaitList A = record s.list { m = delete id s.list.m } in
      elim (Option-cases (lookup id s.list.m)) [
        | inl free ↦ (taken, rw (free, trigger) refl, refl)
        | inr (ch, waits) ↦
            let handed =
              hand_over-fresh ch x taken ((Separate-reached s r).waiting_fresh id ch waits) in
            (handed_chans ch x taken, rw (waits, trigger) handed, refl)
      ]
