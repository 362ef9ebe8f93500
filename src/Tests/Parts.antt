-- ===== src/Tests/Parts.antt =====
-- The clock of a node, the queue of leases, the ring of requests, and a limited listener.
use etcd_cr.Common.{
  ℕ, suc, ◌+◌, ◌≤◌, ◌≡◌, refl, zero, Bool, none, some, [], ◌∷◌, length, get_elem?, take, arith, ok,
}
use etcd_cr.Common.Maps.{lookup}
use etcd_cr.Storage.{MemoryStorage, memory_storage}
use etcd_cr.Raft.{Raft, promotable, is_leader}
use etcd_cr.Raft.Resets.{fresh_all}
use etcd_cr.Raft.Campaigns.{voted_to}
use etcd_cr.Raft.Elections.{CanCampaign, ticks, elapsed, ticks-campaign}
use etcd_cr.Stats.{RequestStats, StatsQueue, insert, new_queue}
use etcd_cr.Stats.Window.{Holds, Holds-new, window, insert-Holds}
use etcd_cr.LimitListen.{
  Listener, limit_listener, began, after, at_start, close, begin_accept, acquire, give, gave,
}
use etcd_cr.LimitListen.Bounds.{open_conns, open_conns-bounded}
use etcd_cr.Lease.{LeaseWithTime, LeaseQueue, push, pop, swap}
use etcd_cr.Lease.Positions.{IsIndexed, queue-IsIndexed}
use etcd_cr.Tests.Nodes.{node, counting, last_is_nine}
use etcd_cr.Tests.Votes.{three_peers}

-- A node with five ticks left.
abbrev five_left : Raft MemoryStorage ℕ
five_left = record node { election_elapsed = 8 }

five_left-CanCampaign : CanCampaign 9 five_left
unfolding promotable is_leader
five_left-CanCampaign = record {
  log_ends = last_is_nine;
  timeout = omega arith;
  voter = refl;
  no_leader = refl;
  no_pre_vote = refl;
  waits = omega arith;
}

ticks-campaign_example :
    (ticks 3 five_left ≡ ok (elapsed 11 five_left))
    × (ticks 5 five_left ≡ ok (voted_to five_left (fresh_all 1 256 9 (three_peers []).progress)))
ticks-campaign_example = ticks-campaign 9 3 4 five_left five_left-CanCampaign (omega arith) refl

abbrev request : RequestStats
request = record { sending_time = 5; size = 100 }

insert-Holds_example :
    (q' : StatsQueue) × (insert request new_queue ≡ ok q') × Holds q' (window [] request)
insert-Holds_example = insert-Holds request new_queue [] Holds-new

abbrev accepting_one : Listener
accepting_one = record { capacity = 2; sem = 1; accepting = 1; conns = [] }

begin_accept-one : begin_accept (limit_listener 2) ≡ some accepting_one
unfolding begin_accept acquire limit_listener
begin_accept-one = refl

-- The listener with the limit 2 after it gave out the connection 6.
abbrev one_open : Listener
one_open = give 6 accepting_one

open_conns-bounded_example :
    (one_open.accepting + open_conns one_open.conns ≤ 2)
    × ((conn : ℕ) (done : Bool)
        → lookup conn one_open.conns ≡ some done
        → (l' : Listener) × (close conn one_open ≡ some l'))
open_conns-bounded_example = open_conns-bounded 2 one_open (
    after accepting_one one_open
      (after (limit_listener 2) accepting_one at_start (began accepting_one begin_accept-one))
      (gave 6 refl refl))

abbrev first_item : LeaseWithTime
first_item = record { id = 11; time = 300; index = some 0 }

abbrev second_item : LeaseWithTime
second_item = record { id = 12; time = 200; index = some 1 }

abbrev two_items : LeaseQueue
two_items = first_item ∷ second_item ∷ []

two_items-IsIndexed : IsIndexed two_items
unfolding IsIndexed
two_items-IsIndexed zero x h = cc
two_items-IsIndexed (suc zero) x h = cc
two_items-IsIndexed (suc (suc k)) x h = cc

queue-IsIndexed_example :
    IsIndexed (push first_item two_items)
    × ((pq' : LeaseQueue) × (swap two_items 0 1 ≡ ok pq') × IsIndexed pq' × (length pq' ≡ 2))
    × ((end : LeaseWithTime) × (pop two_items ≡ ok (record end { index = none }, take 1 two_items))
        × (get_elem? two_items 1 ≡ some end)
        × IsIndexed (take 1 two_items))
queue-IsIndexed_example =
    queue-IsIndexed first_item two_items 0 1 two_items-IsIndexed (omega arith) (omega arith)
