-- ===== src/Raft/Step.antt =====
-- raft/raft.go: campaigns, `Step`, the clock, membership changes, and `newRaft`.
use etcd_cr.Common.{
  ◌+◌, true, false, ◌&&◌, not, none, [], if◌then◌else◌, Result, ok, ◌>>=◌, ◌>>◌, must,
}
use etcd_cr.Raftpb.{Message, ConfState, ConfChangeV2, MessageType, msg_hup, msg_vote, zero_snapshot}
use etcd_cr.Util.{vote_resp_msg_type}
use etcd_cr.Tracker.{make_progress_tracker}
use etcd_cr.Confchange.{simple}
use etcd_cr.Storage.{Storage}
use etcd_cr.RaftLog.{RaftLog, new_log_with_size, last_index, last_term}
use etcd_cr.Raft.{
  Raft, StartConfig, state_follower, Rand, is_leader, new_read_only, promotable, validate,
  past_election_timeout, poll, load_state, switch_to_config, CampaignType, campaign_pre_election,
  campaign_election, campaign_transfer,
}
use etcd_cr.Raft.Roles.{become_follower, become_candidate}

module _ {S G : Type 0} ⦃st : Storage S⦄ ⦃rng : Rand G⦄ where
  -- `campaign`. A pre-election leaves `voteMsg` at its zero value, which is `MsgHup`. What follows
  -- the poll only prints.
  unfoldable pub campaign_with : Raft S G → MessageType → Result (Raft S G)
  campaign_with r vote_msg = do
    _ ← vote_resp_msg_type vote_msg
    let (tally, r') = poll r r.id true
    ok r'

  unfoldable pub campaign : Raft S G → CampaignType → Result (Raft S G)
  campaign r campaign_pre_election = campaign_with r msg_hup
  campaign r campaign_election = do r' ← become_candidate r; campaign_with r' msg_vote
  campaign r campaign_transfer = do r' ← become_candidate r; campaign_with r' msg_vote

  -- The case of `Step` for `MsgHup`.
  unfoldable pub hup : Raft S G → Result (Raft S G)
  hup r =
      if is_leader r.state
      then ok r
      else if not (promotable r)
      then ok r
      else campaign r (if r.pre_vote then campaign_pre_election else campaign_election)

  -- `Step`: every other message changes nothing, and the error is always nil.
  unfoldable pub step_message : Raft S G → Message → Result (Raft S G)
  step_message r m = elim m.type [ msg_hup ↦ hup r | _ ↦ ok r ]

  -- The message of `tickElection`.
  abbrev pub hup_message : Raft S G → Message
  hup_message r = record {
    type = msg_hup;
    to = 0;
    from = r.id;
    term = 0;
    log_term = 0;
    index = 0;
    entries = [];
    commit = 0;
    snapshot = zero_snapshot;
    reject = false;
    reject_hint = 0;
    context = none;
  }

  -- `tickElection`
  unfoldable pub tick_election : Raft S G → Result (Raft S G)
  tick_election r =
      let r' = record r { election_elapsed = r.election_elapsed + 1 } in
      if promotable r' && past_election_timeout r'
      then step_message (record r' { election_elapsed = 0 }) (hup_message r)
      else ok r'

  -- `applyConfChange`
  unfoldable pub apply_conf_change : Raft S G → ConfChangeV2 → Result (ConfState × Raft S G)
  apply_conf_change r cc = do
    last ← last_index r.raft_log
    (cfg, prs) ← must (simple (record { tracker = r.prs; last_index = last }) cc.changes)
    ok (switch_to_config r cfg prs)

  -- The node that `newRaft` builds, before it becomes a follower.
  abbrev pub initial_raft : StartConfig S → RaftLog S → G → Raft S G
  initial_raft c l g = record {
    id = c.id;
    term = 0;
    vote = 0;
    read_states = [];
    raft_log = l;
    max_msg_size = c.max_size_per_msg;
    max_uncommitted_size = c.max_uncommitted_entries_size;
    prs = make_progress_tracker c.max_inflight_msgs;
    state = state_follower;
    is_learner = false;
    msgs = [];
    lead = 0;
    lead_transferee = 0;
    pending_conf_index = 0;
    uncommitted_size = 0;
    read_only = new_read_only c.read_only_option;
    election_elapsed = 0;
    heartbeat_elapsed = 0;
    check_quorum = c.check_quorum;
    pre_vote = c.pre_vote;
    heartbeat_timeout = c.heartbeat_tick;
    election_timeout = c.election_tick;
    randomized_election_timeout = 0;
    disable_proposal_forwarding = c.disable_proposal_forwarding;
    tick = none;
    step = none;
    rand = g;
  }

  -- `newRaft`. The indices that its last log line prints are computed, and may panic.
  unfoldable pub new_raft : StartConfig S → G → Result (Raft S G)
  new_raft c g = do
    must (validate c)
    l ← new_log_with_size c.storage c.max_committed_size_per_ready
    (hs, cs) ← must (st.initial_state c.storage)
    let r = load_state (initial_raft c l g) hs
    r' ← become_follower r r.term 0
    _ ← last_index r'.raft_log
    _ ← last_term r'.raft_log
    ok r'
