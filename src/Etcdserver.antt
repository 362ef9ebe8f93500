-- ===== src/Etcdserver.antt =====
-- Put requests from the gRPC server down to raft: etcdserver/api/v3rpc/key.go and
-- etcdserver/v3_server.go. The bytes of a request, its result and the size of its encoding are the
-- protobuf package's, and stand as parameters. Metrics are left out.
pub mod Draws
pub mod Ids
pub mod Endings
pub mod Starting
pub mod Started
pub mod Founding
mod Timeouts
use etcd_cr.Common.{
  ℕ, ◌+◌, ◌*◌, ◌%◌, Bool, true, false, ◌&&◌, not, Option, none, some, List, length, ltb, ◌==◌,
  if◌then◌else◌, Error, Result, ok, err, panic, ◌>>=◌, add64, empty_key, value_provided,
  lease_provided, too_many_requests, request_too_large, canceled, timeout,
  timeout_due_to_leader_fail, stopped,
}
use etcd_cr.Idutil.{Generator, next, new_generator}
use etcd_cr.Wait.{WaitList, Sending, sent, blocked, panicked, new, register, trigger}

-- `PutRequest`; the lease is a 64-bit pattern.
pub record PutRequest : Type 0 where
  pub key : List ℕ
  pub value : List ℕ
  pub lease : ℕ
  pub ignore_value : Bool
  pub ignore_lease : Bool

-- `checkPutRequest`
unfoldable pub check_put_request : PutRequest → Result (Unit {0})
check_put_request r =
    if length r.key == 0
    then err empty_key
    else if r.ignore_value && not (length r.value == 0)
    then err value_provided
    else if r.ignore_lease && not (r.lease == 0)
    then err lease_provided
    else ok tt

-- `maxGapBetweenApplyAndCommitIndex`
abbrev pub max_gap : ℕ
max_gap = 5000

-- `applyResult`, for a response of type `P`.
pub record ApplyResult (P : Type 0) : Type 0 where
  pub resp : P
  pub failed : Option Error

-- The part of `EtcdServer` that requests use. What waits for a request is an `*applyResult`, which
-- may be nil. The times are nanoseconds on one clock.
pub record EtcdServer (P : Type 0) : Type 0 where
  pub applied_index : ℕ
  pub committed_index : ℕ
  pub req_id_gen : Generator
  pub w : WaitList (Option (ApplyResult P))
  pub max_request_bytes : ℕ
  pub lead_elected_time : ℕ
  pub election_ticks : ℕ
  pub tick_ms : ℕ

-- Why the request's context is done.
pub data ContextError : Type 0 where
  context_canceled deadline_exceeded : ContextError

-- What the last `select` of a request receives first.
pub data Received (P : Type 0) : Type 0 where
  result : Option (ApplyResult P) → Received P
  context_done : ContextError → Received P
  server_done : Received P

module _ {P : Type 0} where
  -- The guard on the two indices.
  unfoldable pub admit : EtcdServer P → Result (Unit {0})
  admit s =
      if ltb (add64 s.applied_index max_gap) s.committed_index then err too_many_requests else ok tt

  -- `Next`, and the guard on the length of the encoding with the drawn id: the drawn id.
  unfoldable pub draw_id : (ℕ → ℕ) → EtcdServer P → EtcdServer P × Result ℕ
  draw_id size s =
      let drawn = next s.req_id_gen in
      (
        record s { req_id_gen = drawn.1 },
        if ltb s.max_request_bytes (size drawn.0) then err request_too_large else ok drawn.0,
      )

  -- `Register`: the id, and the channel to wait on.
  unfoldable pub register_id : ℕ → EtcdServer P → EtcdServer P × Result (ℕ × ℕ)
  register_id id s = elim (register id s.w) [
    | ok (ch, w) ↦ (record s { w = w }, ok (id, ch))
    | err e ↦ (s, err e)
    | panic ↦ (s, panic)
  ]

  -- `Register` of the request's own id, or of the drawn one.
  unfoldable pub register_draw : ℕ → EtcdServer P × Result ℕ → EtcdServer P × Result (ℕ × ℕ)
  register_draw request_id (s, ok drawn) =
      register_id (if request_id == 0 then drawn else request_id) s
  register_draw request_id (s, err e) = (s, err e)
  register_draw request_id (s, panic) = (s, panic)

  -- `processInternalRaftRequestOnce` up to `Register`, where no other goroutine runs in between, of a
  -- request by the id it carries, 0 for none.
  unfoldable pub begin_request : (ℕ → ℕ) → ℕ → EtcdServer P → EtcdServer P × Result (ℕ × ℕ)
  begin_request size request_id s = elim (admit s) [
    | ok _ ↦ register_draw request_id (draw_id size s)
    | err e ↦ (s, err e)
    | panic ↦ (s, panic)
  ]

  -- `parseProposeCtxErr`, of a context's error and the time at which the request started.
  unfoldable pub parse_propose_ctx_err : EtcdServer P → ContextError → ℕ → Error
  parse_propose_ctx_err s context_canceled start = canceled
  parse_propose_ctx_err s deadline_exceeded start =
      if ltb s.lead_elected_time (start + 2 * s.election_ticks * s.tick_ms * 1000000)
        && ltb start s.lead_elected_time
      then timeout_due_to_leader_fail
      else timeout

  -- The last `select` of `processInternalRaftRequestOnce`. A nil result fails the type assertion.
  unfoldable pub end_request :
      ℕ → ℕ → Received P → EtcdServer P → Sending (EtcdServer P × Result (ApplyResult P))
  end_request id start (result none) s = sent (s, panic)
  end_request id start (result (some x)) s = sent (s, ok x)
  end_request id start server_done s = sent (s, err stopped)
  end_request id start (context_done e) s = elim (trigger id none s.w) [
    | sent w ↦ sent (record s { w = w }, err (parse_propose_ctx_err s e start))
    | blocked ↦ blocked
    | panicked ↦ panicked
  ]

  -- `raftRequestOnce`, after `processInternalRaftRequestOnce`.
  unfoldable pub response : Result (ApplyResult P) → Result P
  response (ok x) = elim x.failed [ none ↦ ok x.resp | some e ↦ err e ]
  response (err e) = err e
  response panic = panic

  -- `NewServer`, then `start`, as far as requests go: the generator and an empty `wait.Wait`.
  unfoldable pub new_server : (id now max_request_bytes election_ticks tick_ms : ℕ) → EtcdServer P
  new_server id now max_request_bytes election_ticks tick_ms = record {
    applied_index = 0;
    committed_index = 0;
    req_id_gen = new_generator (id % 65536) now;
    w = new;
    max_request_bytes = max_request_bytes;
    lead_elected_time = 0;
    election_ticks = election_ticks;
    tick_ms = tick_ms;
  }

-- `(*kvServer).Put` and `(*EtcdServer).Put`, up to the wait for raft.
unfoldable pub begin_put :
    {P : Type 0} → (ℕ → ℕ) → PutRequest → EtcdServer P → EtcdServer P × Result (ℕ × ℕ)
begin_put size r s = elim (check_put_request r) [
  | ok _ ↦ begin_request size 0 s
  | err e ↦ (s, err e)
  | panic ↦ (s, panic)
]
