-- ===== src/Wait/Steps.antt =====
-- The steps of goroutines that register and trigger ids with pkg/wait/wait.go, in any order.
use etcd_cr.Common.{ℕ, ◌≡◌, some, List, [], ◌∷◌, ok}
use etcd_cr.Common.Maps.{lookup, delete}
use etcd_cr.Wait.{WaitList, sent, new, register, take_waiter, hand_over}

-- The waiters, and the values that goroutines took a channel for and have not sent yet: `Trigger`
-- sends after it gives up the lock.
pub record Handing (A : Type 0) : Type 0 where
  pub list : WaitList A
  pub pending : List (ℕ × A)

module _ {A : Type 0} where
  pub data Step (s : Handing A) : Handing A → Type 0 where
    registered :
        (id ch : ℕ) (w : WaitList A)
        → register id s.list ≡ ok (ch, w)
        → Step s (record s { list = w })
    taken :
        (id ch : ℕ) (x : A)
        → (take_waiter id s.list).0 ≡ some ch
        → Step s (record { list = (take_waiter id s.list).1; pending = (ch, x) ∷ s.pending })
    handed :
        (ch : ℕ) (x : A) (w : WaitList A)
        → lookup ch s.pending ≡ some x
        → hand_over ch x s.list ≡ sent w
        → Step s (record { list = w; pending = delete ch s.pending })

  pub data Reached : Handing A → Type 0 where
    at_start : Reached (record { list = new; pending = [] })
    after : (s s' : Handing A) → Reached s → Step s s' → Reached s'
