-- ===== src/LimitListen.antt =====
-- pkg/transport/limit_listen.go: a listener whose channel `sem` bounds the open connections. The
-- embedded listener is Go's: whether it gives a connection is a step's choice.
pub mod Bounds
use etcd_cr.Common.{
  ℕ, ◌+◌, ◌-◌, ◌≡◌, Bool, true, false, Option, none, some, List, [], ltb, ◌==◌, if◌then◌else◌,
}
use etcd_cr.Common.Maps.{lookup, insert}

-- `limitListener`, with the calls of `Accept` that wait for a connection, and the connections that it
-- gave out: a number each, and whether `releaseOnce` has run.
pub record Listener : Type 0 where
  pub capacity : ℕ
  pub sem : ℕ
  pub accepting : ℕ
  pub conns : List (ℕ × Bool)

-- `LimitListener`
unfoldable pub limit_listener : ℕ → Listener
limit_listener n = record { capacity = n; sem = 0; accepting = 0; conns = [] }

-- `acquire`: a send on `sem`, which waits (`none`) while the buffer is full.
unfoldable pub acquire : Listener → Option Listener
acquire l = if ltb l.sem l.capacity then some (record l { sem = l.sem + 1 }) else none

-- `release`: a receive from `sem`, which waits while the buffer is empty.
unfoldable pub release : Listener → Option Listener
release l = if l.sem == 0 then none else some (record l { sem = l.sem - 1 })

-- `Accept`, up to the call of the embedded listener.
unfoldable pub begin_accept : Listener → Option Listener
begin_accept l = elim (acquire l) [
  | none ↦ none
  | some l' ↦ some (record l' { accepting = l'.accepting + 1 })
]

-- The rest of `Accept`, with a connection.
unfoldable pub give : ℕ → Listener → Listener
give conn l = record l { accepting = l.accepting - 1; conns = insert conn false l.conns }

-- The rest of `Accept`, with an error.
unfoldable pub fail_accept : Listener → Option Listener
fail_accept l = release (record l { accepting = l.accepting - 1 })

-- `(*limitListenerConn).Close`: only the first call releases.
unfoldable pub close : ℕ → Listener → Option Listener
close conn l = elim (lookup conn l.conns) [
  | none ↦ none
  | some true ↦ some l
  | some false ↦ release (record l { conns = insert conn true l.conns })
]

-- One step of some goroutine.
pub data Step (l : Listener) : Listener → Type 0 where
  began : (l' : Listener) → begin_accept l ≡ some l' → Step l l'
  gave : (conn : ℕ) → ltb 0 l.accepting ≡ true → lookup conn l.conns ≡ none → Step l (give conn l)
  failed : (l' : Listener) → ltb 0 l.accepting ≡ true → fail_accept l ≡ some l' → Step l l'
  closed : (conn : ℕ) (l' : Listener) → close conn l ≡ some l' → Step l l'

pub data Reached (n : ℕ) : Listener → Type 0 where
  at_start : Reached n (limit_listener n)
  after : (l l' : Listener) → Reached n l → Step l l' → Reached n l'
