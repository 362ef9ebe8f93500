-- ===== src/Raftpb.antt =====
-- The protocol messages of raft/raftpb/raft.pb.go and the conversions of raft/raftpb/confchange.go.
-- Enumerations are data types, byte slices are lists of byte values (`none` for nil), and the
-- fields for unrecognised wire data are left out.
pub mod Size
pub mod Marshal
use etcd_cr.Common.{
  ℕ, ◌≡◌, Bool, true, false, Option, none, some, List, [], ◌∷◌, ◌||◌, not, ltb, length,
  if◌then◌else◌,
}

pub data EntryType : Type 0 where
  entry_normal entry_conf_change entry_conf_change_v2 : EntryType

pub data MessageType : Type 0 where
  msg_hup msg_beat msg_prop msg_app msg_app_resp msg_vote msg_vote_resp msg_snap : MessageType
  msg_heartbeat msg_heartbeat_resp msg_unreachable msg_snap_status : MessageType
  msg_check_quorum msg_transfer_leader msg_timeout_now : MessageType
  msg_read_index msg_read_index_resp msg_pre_vote msg_pre_vote_resp : MessageType

pub data ConfChangeTransition : Type 0 where
  transition_auto transition_joint_implicit transition_joint_explicit : ConfChangeTransition

pub data ConfChangeType : Type 0 where
  add_node remove_node update_node add_learner_node : ConfChangeType

pub record Entry : Type 0 where
  pub term : ℕ
  pub index : ℕ
  pub type : EntryType
  pub bytes : Option (List ℕ)

pub record ConfState : Type 0 where
  pub voters : List ℕ
  pub learners : List ℕ
  pub voters_outgoing : List ℕ
  pub learners_next : List ℕ
  pub auto_leave : Bool

pub record SnapshotMetadata : Type 0 where
  pub conf_state : ConfState
  pub index : ℕ
  pub term : ℕ

pub record Snapshot : Type 0 where
  pub bytes : Option (List ℕ)
  pub metadata : SnapshotMetadata

pub record Message : Type 0 where
  pub type : MessageType
  pub to : ℕ
  pub from : ℕ
  pub term : ℕ
  pub log_term : ℕ
  pub index : ℕ
  pub entries : List Entry
  pub commit : ℕ
  pub snapshot : Snapshot
  pub reject : Bool
  pub reject_hint : ℕ
  pub context : Option (List ℕ)

pub record HardState : Type 0 where
  pub term : ℕ
  pub vote : ℕ
  pub commit : ℕ

pub record ConfChange : Type 0 where
  pub type : ConfChangeType
  pub node_id : ℕ
  pub context : Option (List ℕ)
  pub id : ℕ

pub record ConfChangeSingle : Type 0 where
  pub type : ConfChangeType
  pub node_id : ℕ

pub record ConfChangeV2 : Type 0 where
  pub transition : ConfChangeTransition
  pub changes : List ConfChangeSingle
  pub context : Option (List ℕ)

-- The zero values of Go.
abbrev pub zero_conf_state : ConfState
zero_conf_state = record {
  voters = [];
  learners = [];
  voters_outgoing = [];
  learners_next = [];
  auto_leave = false;
}

abbrev pub zero_snapshot : Snapshot
zero_snapshot = record {
  bytes = none;
  metadata = record { conf_state = zero_conf_state; index = 0; term = 0 };
}

-- `(ConfChange).AsV2`
unfoldable pub as_v2 : ConfChange → ConfChangeV2
as_v2 c = record {
  transition = transition_auto;
  changes = record { type = c.type; node_id = c.node_id } ∷ [];
  context = c.context;
}

is_auto : ConfChangeTransition → Bool
is_auto transition_auto = true
is_auto _ = false

auto_leave_of : ConfChangeTransition → Bool
auto_leave_of transition_auto = true
auto_leave_of transition_joint_implicit = true
auto_leave_of transition_joint_explicit = false

-- `(*ConfChangeV2).EnterJoint`: whether the joint state is left automatically, and whether joint
-- consensus is used. (The `default` of its switch is unreachable: the type has three values.)
unfoldable pub enter_joint : ConfChangeV2 → Bool × Bool
unfolding is_auto auto_leave_of
enter_joint c =
    if not (is_auto c.transition) || ltb 1 (length c.changes)
    then (auto_leave_of c.transition, true)
    else (false, false)

-- `(*ConfChangeV2).LeaveJoint`: the change is zero but for its context.
unfoldable pub leave_joint : ConfChangeV2 → Bool
unfolding is_auto
leave_joint c = elim c.changes [ [] ↦ is_auto c.transition | _ ∷ _ ↦ false ]
