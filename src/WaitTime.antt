-- ===== src/WaitTime.antt =====
-- pkg/wait/wait_time.go: goroutines that wait for a logical deadline. A channel is a number, and
-- channel 0 is `closec`; the state holds which channels are closed.
pub mod Deadlines
pub mod Waking
use etcd_cr.Common.{
  ℕ, suc, true, false, Option, none, some, List, [], ◌∷◌, Result, ok, panic, ◌>>=◌, leb,
  if◌then◌else◌,
}
use etcd_cr.Common.Maps.{lookup, insert, has}

-- `timeList`
pub record TimeList : Type 0 where
  pub last_trigger_deadline : ℕ
  pub m : List (ℕ × ℕ)
  pub closed : List ℕ
  pub made : ℕ

-- `NewTimeList`, after `init`
unfoldable pub new_time_list : TimeList
new_time_list = record { last_trigger_deadline = 0; m = []; closed = 0 ∷ []; made = 1 }

-- `Wait`: the channel to wait on.
unfoldable pub wait : ℕ → TimeList → ℕ × TimeList
wait deadline tl =
    if leb deadline tl.last_trigger_deadline then (0, tl) else elim (lookup deadline tl.m) [
      | none ↦ (tl.made, record tl { m = insert deadline tl.made tl.m; made = suc tl.made })
      | some ch ↦ (ch, tl)
    ]

-- `close`, which panics on a closed channel.
unfoldable pub close : ℕ → List ℕ → Result (List ℕ)
close ch closed = if has ch closed then panic else ok (ch ∷ closed)

-- The loop of `Trigger`: the entries that stay, and the closed channels.
unfoldable pub close_due : ℕ → List (ℕ × ℕ) → List ℕ → Result (List (ℕ × ℕ) × List ℕ)
close_due deadline [] closed = ok ([], closed)
close_due deadline ((t, ch) ∷ rest) closed = elim (leb t deadline) [
  | true ↦ (do closed' ← close ch closed; close_due deadline rest closed')
  | false ↦ (do left ← close_due deadline rest closed; ok ((t, ch) ∷ left.0, left.1))
]

-- `Trigger`
unfoldable pub trigger : ℕ → TimeList → Result TimeList
trigger deadline tl = do
  left ← close_due deadline tl.m tl.closed
  ok (record tl { last_trigger_deadline = deadline; m = left.0; closed = left.1 })
