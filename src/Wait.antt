-- ===== src/Wait.antt =====
-- pkg/wait/wait.go: goroutines that wait for the result of a request, by its id. A channel is a
-- number; the state holds what each channel made so far has in its buffer of one.
pub mod Steps
pub mod Handover
pub mod Triggers
use etcd_cr.Common.{
  ℕ, suc, Bool, true, false, Option, none, some, List, [], ◌∷◌, Result, ok, panic, if◌then◌else◌,
}
use etcd_cr.Common.Maps.{lookup, insert, delete}

pub record Chan (A : Type 0) : Type 0 where
  pub buffer : Option A
  pub closed : Bool

-- A send on a buffered channel: it panics on a closed channel and waits on a full one.
pub data Sending (S : Type 0) : Type 0 where
  sent : S → Sending S
  blocked panicked : Sending S

-- `list`
pub record WaitList (A : Type 0) : Type 0 where
  pub m : List (ℕ × ℕ)
  pub chans : List (ℕ × Chan A)
  pub made : ℕ

module _ {A : Type 0} where
  -- `New`
  unfoldable pub new : WaitList A
  new = record { m = []; chans = []; made = 0 }

  -- `make(chan interface{}, 1)`
  abbrev pub fresh : Chan A
  fresh = record { buffer = none; closed = false }

  -- `Register`: the channel, or a panic for an id that waits already.
  unfoldable pub register : ℕ → WaitList A → Result (ℕ × WaitList A)
  register id w = elim (lookup id w.m) [
    | none ↦ ok (
      w.made,
      record { m = insert id w.made w.m; chans = insert w.made fresh w.chans; made = suc w.made },
    )
    | some ch ↦ panic
  ]

  -- The locked part of `Trigger`.
  unfoldable pub take_waiter : ℕ → WaitList A → Option ℕ × WaitList A
  take_waiter id w = (lookup id w.m, record w { m = delete id w.m })

  -- `ch <- x; close(ch)`
  unfoldable pub hand_over : ℕ → A → WaitList A → Sending (WaitList A)
  hand_over ch x w = elim (lookup ch w.chans) [
    | none ↦ blocked
    | some c ↦ if c.closed then panicked else elim c.buffer [
      | none ↦
          sent (record w { chans = insert ch (record { buffer = some x; closed = true }) w.chans })
      | some y ↦ blocked
    ]
  ]

  -- `Trigger`
  unfoldable pub trigger : ℕ → A → WaitList A → Sending (WaitList A)
  trigger id x w =
      let taken = take_waiter id w in
      elim taken.0 [ none ↦ sent taken.1 | some ch ↦ hand_over ch x taken.1 ]
