-- ===== src/Lease.antt =====
-- lease/lease_queue.go and the construction of a lessor in lease/lessor.go. The queue holds pointers
-- to distinct items, so that each place has its own; times are nanoseconds.
pub mod Positions
use etcd_cr.Common.{
  ℕ, ◌+◌, ◌-◌, ◌*◌, Bool, Option, none, some, List, [], ◌∷◌, ◌++◌, length, get_elem?, take, set,
  ltb, ◌==◌, if◌then◌else◌, Result, ok, panic, ◌>>=◌, or_panic,
}

-- `LeaseWithTime`; an index of -1 is `none`.
pub record LeaseWithTime : Type 0 where
  pub id : ℕ
  pub time : ℕ
  pub index : Option ℕ

-- `LeaseQueue`
abbrev pub LeaseQueue : Type 0
LeaseQueue = List LeaseWithTime

-- `Less`
unfoldable pub less : LeaseQueue → ℕ → ℕ → Result Bool
less pq i j = do
  a ← or_panic (get_elem? pq i)
  b ← or_panic (get_elem? pq j)
  ok (ltb a.time b.time)

abbrev pub at_index : ℕ → LeaseWithTime → LeaseWithTime
at_index i x = record x { index = some i }

-- `Swap`
unfoldable pub swap : LeaseQueue → ℕ → ℕ → Result LeaseQueue
swap pq i j = do
  a ← or_panic (get_elem? pq i)
  b ← or_panic (get_elem? pq j)
  ok (set j (at_index j a) (set i (at_index i b) pq))

-- `Push`
unfoldable pub push : LeaseWithTime → LeaseQueue → LeaseQueue
push item pq = pq ++ at_index (length pq) item ∷ []

-- `Pop`
unfoldable pub pop : LeaseQueue → Result (LeaseWithTime × LeaseQueue)
pop old = if length old == 0 then panic else (do
  item ← or_panic (get_elem? old (length old - 1))
  ok (record item { index = none }, take (length old - 1) old))

-- `LeaseExpiredNotifier`
pub record LeaseExpiredNotifier : Type 0 where
  pub m : List (ℕ × LeaseWithTime)
  pub queue : LeaseQueue

-- `newLeaseExpiredNotifier`
abbrev pub new_lease_expired_notifier : LeaseExpiredNotifier
new_lease_expired_notifier = record { m = []; queue = [] }

-- `LessorConfig`
pub record LessorConfig : Type 0 where
  pub min_lease_ttl : ℕ
  pub checkpoint_interval : ℕ
  pub expired_leases_retry_interval : ℕ

-- `defaultLeaseCheckpointInterval` and `defaultExpiredleaseRetryInterval`
abbrev pub default_lease_checkpoint_interval : ℕ
default_lease_checkpoint_interval = 5 * 60 * 1000000000

abbrev pub default_expired_lease_retry_interval : ℕ
default_expired_lease_retry_interval = 3 * 1000000000

-- `lessor`, without its channels, its logger and the backend; the maps are by ids.
pub record Lessor : Type 0 where
  pub lease_map : List (ℕ × ℕ)
  pub lease_expired_notifier : LeaseExpiredNotifier
  pub lease_checkpoint_heap : LeaseQueue
  pub min_lease_ttl : ℕ
  pub checkpoint_interval : ℕ
  pub expired_lease_retry_interval : ℕ

-- `newLessor`
unfoldable pub new_lessor : LessorConfig → Lessor
new_lessor cfg = record {
  lease_map = [];
  lease_expired_notifier = new_lease_expired_notifier;
  lease_checkpoint_heap = [];
  min_lease_ttl = cfg.min_lease_ttl;
  checkpoint_interval =
      if cfg.checkpoint_interval == 0
      then default_lease_checkpoint_interval
      else cfg.checkpoint_interval;
  expired_lease_retry_interval =
      if cfg.expired_leases_retry_interval == 0
      then default_expired_lease_retry_interval
      else cfg.expired_leases_retry_interval;
}
