-- ===== src/Node.antt =====
-- raft/node.go: the channels of a node, and the goroutine `run` that serves them. `run` never sets
-- `readyc` or `advancec`, so the cases of its `select` on them never run, and nothing closes `done`;
-- a context that is done is a step of its own. Log lines are left out.
pub mod Ticks
pub mod Proposals
use etcd_cr.Common.{
  ℕ, ◌+◌, ◌-◌, ◌≡◌, Bool, true, false, Option, none, some, List, [], ◌∷◌, ltb, ◌==◌, if◌then◌else◌,
  Result, ok, err, panic, ◌>>=◌, ◌>>◌, must, length,
}
use etcd_cr.Common.Maps.{lookup, insert, delete}
use etcd_cr.Raftpb.{Message, Entry, msg_prop, entry_normal, zero_snapshot}
use etcd_cr.Storage.{Storage}
use etcd_cr.Raft.{Raft, StartConfig, Rand, has_leader}
use etcd_cr.Raft.Step.{step_message}
use etcd_cr.RawNode.{RawNode, Peer, new_raw_node, bootstrap, tick, has_ready}

-- `node`, with the local variables `lead` and `propc` of `run`: `serves` tells whether `propc` is
-- set. `tickc` is the number of ticks in its buffer, and `calls` has the calls of `Propose` that
-- wait to send their message, by a number for each call.
pub record Node (S G : Type 0) : Type 0 where
  pub rn : RawNode S G
  pub lead : ℕ
  pub serves : Bool
  pub tickc : ℕ
  pub calls : List (ℕ × Message)

-- `make(chan struct{}, 128)`
abbrev pub tickc_cap : ℕ
tickc_cap = 128

-- The message of `Propose`.
abbrev pub proposal : List ℕ → Message
proposal bytes = record {
  type = msg_prop;
  to = 0;
  from = 0;
  term = 0;
  log_term = 0;
  index = 0;
  entries = record { term = 0; index = 0; type = entry_normal; bytes = some bytes } ∷ [];
  commit = 0;
  snapshot = zero_snapshot;
  reject = false;
  reject_hint = 0;
  context = none;
}

module _ {S G : Type 0} where
  -- `newNode`, and the start of `run`.
  unfoldable pub new_node : RawNode S G → Node S G
  new_node rn = record { rn = rn; lead = 0; serves = false; tickc = 0; calls = [] }

  -- `Tick`: a tick that finds the buffer full is dropped.
  unfoldable pub tick_in : Node S G → Node S G
  tick_in n = if ltb n.tickc tickc_cap then record n { tickc = n.tickc + 1 } else n

  -- `Propose`, up to the first `select` of `stepWithWaitOption`.
  unfoldable pub propose : ℕ → List ℕ → Node S G → Node S G
  propose call bytes n = record n { calls = insert call (proposal bytes) n.calls }

  -- A call whose context is done returns the context's error.
  unfoldable pub give_up : ℕ → Node S G → Node S G
  give_up call n = record n { calls = delete call n.calls }

module _ {S G : Type 0} ⦃st : Storage S⦄ ⦃rng : Rand G⦄ where
  -- `run`, up to its `select`: `HasReady`, and the look at the leader.
  unfoldable pub before_select : Node S G → Result (Node S G)
  before_select n = do
    _ ← has_ready n.rn
    ok (
        if n.lead == n.rn.raft.lead
        then n
        else record n { serves = has_leader n.rn.raft; lead = n.rn.raft.lead })

  -- The case of `tickc`.
  unfoldable pub receive_tick : Node S G → Result (Node S G)
  receive_tick n = do rn ← tick n.rn; ok (record n { rn = rn; tickc = n.tickc - 1 })

  -- The case of `propc`, for the message of one call; the result of `Step` goes back to the caller.
  unfoldable pub receive_proposal : ℕ → Message → Node S G → Result (Node S G)
  receive_proposal call m n = do
    r ← step_message n.rn.raft (record m { from = n.rn.raft.id })
    ok (record n { rn = record n.rn { raft = r }; calls = delete call n.calls })

  -- `StartNode` drops the error of `Bootstrap`, which returns it before it changes the node.
  abbrev booted : RawNode S G → Result (RawNode S G) → Result (Node S G)
  booted rn (ok rn') = ok (new_node rn')
  booted rn (err e) = ok (new_node rn)
  booted rn panic = panic

  unfoldable pub start_node : StartConfig S → G → List Peer → Result (Node S G)
  start_node c g peers =
      if length peers == 0
      then panic
      else (do rn ← must (new_raw_node c g); booted rn (bootstrap rn peers))

  -- `RestartNode`
  unfoldable pub restart_node : StartConfig S → G → Result (Node S G)
  restart_node c g = do rn ← must (new_raw_node c g); ok (new_node rn)

  -- One step of a node: a tick of the timer, a call of `Propose`, a context that is done, or a
  -- round of `run` that receives from `tickc` or from `propc`.
  pub data Step (n : Node S G) : Node S G → Type 0 where
    timer_ticked : Step n (tick_in n)
    proposed :
        (call : ℕ) (bytes : List ℕ) → lookup call n.calls ≡ none → Step n (propose call bytes n)
    gave_up : (call : ℕ) → Step n (give_up call n)
    ran_tick :
        (n1 n2 : Node S G)
        → before_select n ≡ ok n1
        → ltb 0 n1.tickc ≡ true
        → receive_tick n1 ≡ ok n2
        → Step n n2
    ran_proposal :
        (call : ℕ) (m : Message) (n1 n2 : Node S G)
        → before_select n ≡ ok n1
        → n1.serves ≡ true
        → lookup call n1.calls ≡ some m
        → receive_proposal call m n1 ≡ ok n2
        → Step n n2

  pub data Reached (first : Node S G) : Node S G → Type 0 where
    at_start : Reached first first
    after : (n n' : Node S G) → Reached first n → Step n n' → Reached first n'
