-- ===== src/Tests/Waits.antt =====
-- Channels of waiting goroutines, and the channels of a node.
use etcd_cr.Common.{ℕ, ◌≡◌, ◌≢◌, ◌⊎◌, refl, true, ◌||◌, leb, none, some, [], ◌∷◌, ok}
use etcd_cr.Common.Maps.{lookup, has}
use etcd_cr.Wait.{WaitList, sent, new, register, take_waiter, hand_over, fresh}
use etcd_cr.Wait.Steps.{Handing, Reached, registered, taken}
use etcd_cr.Wait.Handover.{hand_over-delivers}
use etcd_cr.Wait.Steps
use etcd_cr.WaitTime.{TimeList, new_time_list, wait, trigger}
use etcd_cr.WaitTime.Waking
use etcd_cr.WaitTime.Waking.{wait-woken}
use etcd_cr.Storage.{MemoryStorage, memory_storage}
use etcd_cr.Raft.{state_follower}
use etcd_cr.Node.{Node, new_node, proposal, propose, give_up, proposed, tick_in, timer_ticked}
use etcd_cr.Node
use etcd_cr.Node.Proposals.{Leaderless, propose-waits}
use etcd_cr.Tests.Nodes.{node, counting}

abbrev seven_waits : WaitList ℕ
seven_waits = record { m = (7, 0) ∷ []; chans = (0, fresh) ∷ []; made = 1 }

register-seven : register 7 new ≡ ok (0, seven_waits)
unfolding register new
register-seven = refl

-- The goroutine that triggers 7 has taken its channel, and is to send 9.
abbrev to_send : Handing ℕ
to_send = record { list = (take_waiter 7 seven_waits).1; pending = (0, 9) ∷ [] }

to_send-Reached : Steps.Reached to_send
unfolding take_waiter
to_send-Reached =
    Steps.after (record { list = seven_waits; pending = [] }) to_send
      (Steps.after (record { list = new; pending = [] })
        (record { list = seven_waits; pending = [] }) Steps.at_start
        (registered 7 0 seven_waits register-seven))
      (taken 7 0 9 refl)

hand_over-delivers_example :
    (w : WaitList ℕ) × (hand_over 0 9 to_send.list ≡ sent w)
    × (lookup 0 w.chans ≡ some (record { buffer = some 9; closed = true }))
    × ((other : ℕ) → 0 ≢ other → lookup other w.chans ≡ lookup other to_send.list.chans)
    × (w.m ≡ to_send.list.m)
hand_over-delivers_example = hand_over-delivers to_send 0 9 to_send-Reached refl

-- A list on which one goroutine waits for the deadline 10.
abbrev ten_waits : TimeList
ten_waits = (wait 10 new_time_list).1

wait-woken_example :
    (tl' : TimeList) × (trigger 12 (wait 11 ten_waits).1 ≡ ok tl')
    × (has (wait 11 ten_waits).0 tl'.closed ≡ (leb 11 ten_waits.last_trigger_deadline || leb 11 12))
wait-woken_example = wait-woken 11 12 ten_waits (Waking.waited 10 new_time_list Waking.at_start)

abbrev fresh_node : Node MemoryStorage ℕ
fresh_node = new_node (record {
  raft = node;
  prev_soft_st = record { lead = 0; raft_state = state_follower };
  prev_hard_st = record { term = 3; vote = 0; commit = 7 };
})

fresh_node-Leaderless : Leaderless fresh_node
unfolding new_node
fresh_node-Leaderless = record { raft_lead = refl; lead = refl; closed = refl }

-- A call proposes one byte.
abbrev asked : Node MemoryStorage ℕ
asked = propose 1 (65 ∷ []) fresh_node

asked-waits : lookup 1 asked.calls ≡ some (proposal (65 ∷ []))
unfolding propose new_node
asked-waits = refl

none_waits : lookup 1 fresh_node.calls ≡ none
unfolding new_node
none_waits = refl

propose-waits_example :
    (lookup 1 (tick_in asked).calls ≡ some (proposal (65 ∷ []))) ⊎ (tick_in asked ≡ give_up 1 asked)
propose-waits_example =
    propose-waits fresh_node asked (tick_in asked) 1 (proposal (65 ∷ [])) fresh_node-Leaderless
      (Node.after fresh_node asked Node.at_start (proposed 1 (65 ∷ []) none_waits)) asked-waits
      timer_ticked
