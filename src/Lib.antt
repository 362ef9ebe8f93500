-- ===== src/Lib.antt =====
-- The raft library of etcd-cr (raft/) and the parts of the server that stand on it: requests,
-- their ids and their waiting, the members of a cluster, and the start of a new cluster.
--
-- The parts, from the bottom up. Paths are from the root of the repository.
-- - Raftpb (raft/raftpb/raft.pb.go, confchange.go): the message types, the conversions of
--   membership changes, the size of an entry (Raftpb.Size), and the encoding of a membership
--   change (Raftpb.Marshal).
-- - Util (raft/util.go): `min`, `max`, `voteRespMsgType`, `limitSize`.
-- - Storage (raft/storage.go): the `Storage` interface as a record of operations, and
--   `MemoryStorage`. Storage.Laws is the contract of the interface: a storage stands for a first
--   entry and the consecutive entries behind it. `MemoryStorage` fills it.
-- - Unstable (raft/log_unstable.go): the entries and the snapshot that are not stored yet.
-- - RaftLog (raft/log.go): `raftLog` over any storage that keeps the contract. RaftLog.View gives
--   the abstract log of a valid raft log: the stored entries below the unstable offset, then the
--   unstable ones. Entries (`overwrite`) says what writing entries into such a log means.
-- - Quorum (raft/quorum): votes of majority and joint configurations.
-- - Tracker (raft/tracker): the configuration, the progress of the peers, and the recorded votes.
-- - Confchange (raft/confchange): `checkInvariants`, `apply`, `Simple` and `chain`.
-- - Raft (raft/raft.go, read_only.go): the state of a node; Raft.Roles has `reset` and the
--   changes of role (`becomeFollower`, `becomeCandidate`), Raft.Step has `campaign`, `Step`
--   (`step_message`), `tickElection`, `applyConfChange` and `newRaft`. Raft.History is the step
--   relation of a node, and Raft.Elections its runs of ticks (`ticks`).
-- - RawNode (raft/rawnode.go, bootstrap.go, node.go): `Ready`, `HasReady`, `acceptReady`,
--   `Bootstrap`.
-- - Node (raft/node.go): the channels of `node`, `StartNode`, `RestartNode`, and the goroutine
--   `run` as a step relation; Node.Ticks has `advanceTicks` of etcdserver/raft.go.
-- - Idutil (pkg/idutil/id.go): the generator of request ids.
-- - Wait (pkg/wait/wait.go): goroutines that wait for the result of a request. Wait.Steps has the
--   interleavings of `Register` and of the two parts of `Trigger`. WaitTime
--   (pkg/wait/wait_time.go): waits for a deadline.
-- - Membership (etcdserver/api/membership): members and their ids, and the cluster that is made
--   of names and URLs; Membership.Keys has the keys of store.go.
-- - Etcdserver (etcdserver/v3_server.go, server.go, api/v3rpc/key.go): a put request up to its
--   proposal (`begin_put`, `begin_request`, of `admit`, `draw_id` and `register_id`), and its
--   endings (`end_request`). Etcdserver.Starting has the start of a new cluster:
--   `VerifyBootstrap` (config.go), `startNode` (raft.go) and the case of `NewServer`.
--   Etcdserver.Draws has the draws and registrations of concurrent requests, Etcdserver.Timeouts
--   the durations of config.go and `adjustTicks`.
-- - Types (pkg/types): ids as hexadecimal text (id.go); Types.UrlsMap the text of an initial
--   cluster; Types.Urls the checks of URLs. Embed (embed/config.go) makes that text and reads it;
--   Embed.Hosts has `UpdateDefaultClusterFromName`, on the host that netutil finds, the parts of
--   a URL and its text.
-- - Flags (pkg/flags): the values of flags. Flags.Splitting has the text of a list,
--   Flags.Agreement the invariant of the URLs of a flag.
-- - Stats (etcdserver/api/v2stats/queue.go), LimitListen (pkg/transport/limit_listen.go), Lease
--   (lease): the ring of the last requests, the bound on open connections, and the queue of
--   leases.
-- - Common: Boolean tests, lists over native numbers, results of Go calls, 64-bit words, masks,
--   Go maps.
-- - Tests: runs of the code at small inputs.
--
-- How they interact. `NewServer` makes a cluster of the names and URLs that embed/config.go read,
-- and starts a node whose peers are the members (Etcdserver.Starting, on Membership, Node and
-- RawNode). A request draws an id, registers it and is proposed to the node; applying it triggers
-- the id (Etcdserver, on Idutil and Wait). A node keeps its log and votes in RaftLog, Tracker and
-- Quorum.
--
-- How Go is modelled. A function that can return an error or panic gives a `Result` (`ok`, `err`,
-- `panic`); slices out of range, writes to nil maps and `Panicf` panic. A method that changes its
-- receiver returns the new one. `uint64` sums and differences wrap at 2^64 (`add64`, `sub64`);
-- the counters and lengths of type `int` are natural numbers, except that `MemoryStorage.Term`
-- keeps the conversion of a large `uint64` to a negative `int`. A nil pointer or map is `none`; a
-- set of ids is the list of its members and a map with values an association list, in the order
-- in which a loop visits them. Strings and byte slices are lists of bytes. Log lines are left
-- out: a raft node has a logger, and `startNode` panics without one. Mutexes are left out, each
-- locked part being one step; goroutines are step relations on the state that they share. A
-- channel is a number with a buffer in the state, or a counter where it only counts. The
-- functions that `tick` and `step` hold are named by data types.
--
-- Parameters. The generator behind `globalRand` is the instance `Rand`, `intn n` of a state; the
-- node carries the state, and where a theorem needs it, that a draw is below its bound is a
-- hypothesis. The storage is any type with an instance of `Storage`. SHA-1, `json.Marshal` of a
-- member, whether the write-ahead log and the raft logger can be made, the size of an encoded
-- request, `strings.TrimSpace`, `url.Parse`, `net.SplitHostPort`, `Hostname`, `Port` and `String`
-- of a URL, and the host that netutil finds are arguments of the definitions; nothing is supposed
-- of them, but that the URLs of a printed cluster have no `,`, and that a start has a write-ahead
-- log, a raft logger and the text of each member.
--
-- Loops are structural recursion, with three exceptions: those that count and write the bytes of
-- a variable-length integer and the digits of an id, which are recursion on the order of the
-- numbers, and the loop of `parse` (`parse_loop`), which counts rounds: one for each character of
-- the text, since each round takes at least one (Types.UrlsMap.Rounds).
--
-- Not modelled: the logger and the printing of `String` methods; the generated encoders and
-- decoders but for `ConfChange`; in etcdserver, the application of requests (`applyV2`),
-- `publish`, the HTTP and gRPC handlers and the discovery of a cluster; the flags, defaults and
-- listeners of embed and etcdmain; the write-ahead log and the multi-version store, which are
-- mostly disk and bolt calls; and the rest of pkg, which calls the operating system or
-- third-party libraries.
pub mod Common
pub mod Raftpb
pub mod Util
pub mod Entries
pub mod Storage
pub mod Unstable
pub mod RaftLog
pub mod Quorum
pub mod Tracker
pub mod Confchange
pub mod Raft
pub mod RawNode
pub mod Node
pub mod Membership
pub mod Types
pub mod Embed
pub mod Flags
pub mod Stats
pub mod LimitListen
pub mod Lease
pub mod Idutil
pub mod Wait
pub mod WaitTime
pub mod Etcdserver
pub mod Tests
