-- ===== src/Stats.antt =====
-- etcdserver/api/v2stats/queue.go: the last requests, in a ring of 200 places. A sending time is a
-- number; the locks are left out, and the rates, which are floating-point numbers.
pub mod Window
use etcd_cr.Common.{
  ℕ, ◌+◌, ◌-◌, ◌%◌, Option, none, some, ◌==◌, if◌then◌else◌, Result, ok, panic, ◌>>=◌, or_panic,
}

-- `queueCapacity`
abbrev pub queue_capacity : ℕ
queue_capacity = 200

pub record RequestStats : Type 0 where
  pub sending_time : ℕ
  pub size : ℕ

-- `statsQueue`; a place of `items` may be nil, and `back` is `none` for -1.
pub record StatsQueue : Type 0 where
  pub items : ℕ → Option RequestStats
  pub size : ℕ
  pub front : ℕ
  pub back : Option ℕ
  pub total_req_size : ℕ

-- `(q.back + 1) % queueCapacity`
unfoldable pub next_place : Option ℕ → ℕ
next_place none = 0
next_place (some b) = (b + 1) % queue_capacity

-- `q.items[i] = p`
abbrev pub put : ℕ → RequestStats → (ℕ → Option RequestStats) → ℕ → Option RequestStats
put i p items j = if j == i then some p else items j

-- `&statsQueue{back: -1}`
unfoldable pub new_queue : StatsQueue
new_queue = record { items = λ _. none; size = 0; front = 0; back = none; total_req_size = 0 }

-- `Insert`, of a request that is not nil. A nil item panics.
unfoldable pub insert : RequestStats → StatsQueue → Result StatsQueue
insert p q = do
  let back = next_place q.back
  dequeued ←
      if q.size == queue_capacity
      then (do
        oldest ← or_panic (q.items q.front)
        ok (record q {
          total_req_size = q.total_req_size - oldest.size;
          front = (back + 1) % queue_capacity;
        }))
      else ok (record q { size = q.size + 1 })
  ok (record dequeued {
    items = put back p q.items;
    back = some back;
    total_req_size = dequeued.total_req_size + p.size;
  })

-- `frontAndBack`
unfoldable pub front_and_back : StatsQueue → Option RequestStats × Option RequestStats
front_and_back q =
    if q.size == 0
    then (none, none)
    else (q.items q.front, elim q.back [ none ↦ none | some b ↦ q.items b ])

-- `Clear`
unfoldable pub clear : StatsQueue → StatsQueue
clear q = record q { back = none; front = 0; size = 0; total_req_size = 0 }
