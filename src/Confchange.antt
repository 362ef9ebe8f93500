-- ===== src/Confchange.antt =====
-- raft/confchange/confchange.go and the `chain` of restore.go: changes of the membership. The
-- maps that the source copies and then changes in place are values here.
pub mod Invariants
pub mod Simple
pub mod Voters
pub mod Adding
use etcd_cr.Common.{
  ℕ, ◌+◌, ◌<◌, Bool, true, false, not, Option, none, some, List, [], ◌∷◌, ltb, ◌==◌, if◌then◌else◌,
  length, Result, ok, err, panic, ◌>>=◌, ◌>>◌, or_panic, Error, in_joint_config, removed_all_voters,
  many_voters_changed, unexpected_conf_type, no_progress, staged_not_outgoing, staged_is_learner,
  learner_in_outgoing, learner_in_incoming, learner_not_marked, outgoing_not_nil,
  learners_next_not_nil, auto_leave_set,
}
use etcd_cr.Common.Maps.{IdSet, ids, has, add_id, put_id, remove_id, lookup, insert}
use etcd_cr.Raftpb.{
  ConfChangeType, add_node, remove_node, update_node, add_learner_node, ConfChangeSingle,
}
use etcd_cr.Quorum.{JointConfig, joint_ids}
use etcd_cr.Tracker.{
  Config, Progress, ProgressMap, ProgressTracker, state_probe, new_inflights, clone,
}

pub record Changer : Type 0 where
  pub tracker : ProgressTracker
  pub last_index : ℕ

-- `joint`
abbrev pub joint : Config → Bool
joint cfg = ltb 0 (length (ids cfg.voters.outgoing))

-- `nilAwareAdd`
abbrev pub nil_aware_add : IdSet → ℕ → IdSet
nil_aware_add none id = some (id ∷ [])
nil_aware_add (some xs) id = some (add_id id xs)

abbrev nil_if_empty : List ℕ → IdSet
nil_if_empty [] = none
nil_if_empty (x ∷ xs) = some (x ∷ xs)

-- `nilAwareDelete`
abbrev pub nil_aware_delete : IdSet → ℕ → IdSet
nil_aware_delete none id = none
nil_aware_delete (some xs) id = nil_if_empty (remove_id id xs)

abbrev pub missing_in : List ℕ → List ℕ → ℕ
missing_in [] r = 0
missing_in (id ∷ l) r = (if has id r then 0 else 1) + missing_in l r

-- `symdiff`
unfoldable pub symdiff : IdSet → IdSet → ℕ
symdiff l r = missing_in (ids l) (ids r) + missing_in (ids r) (ids l)

-- `incoming(cfg.Voters)[id] = struct{}{}`
abbrev pub add_incoming : Config → ℕ → Result Config
add_incoming cfg id = do
  voters ← put_id id cfg.voters.incoming
  ok (record cfg { voters = record cfg.voters { incoming = voters } })

-- A loop that returns the first error that a check reports.
unfoldable pub check_each : (ℕ → Result (Unit {0})) → List ℕ → Result (Unit {0})
check_each check [] = ok tt
check_each check (id ∷ l) = do check id; check_each check l

abbrev pub check_that : Bool → Error → Result (Unit {0})
check_that true e = ok tt
check_that false e = err e

abbrev pub is_nil : IdSet → Bool
is_nil none = true
is_nil (some _) = false

module _ (cfg : Config) (prs : ProgressMap) where
  abbrev pub check_tracked : ℕ → Result (Unit {0})
  check_tracked id = elim (lookup id prs) [ none ↦ err (no_progress id) | some _ ↦ ok tt ]

  abbrev pub check_staged : ℕ → Result (Unit {0})
  check_staged id = do
    check_that (has id (ids cfg.voters.outgoing)) (staged_not_outgoing id)
    pr ← or_panic (lookup id prs)
    check_that (not pr.is_learner) (staged_is_learner id)

  abbrev pub check_learner : ℕ → Result (Unit {0})
  check_learner id = do
    check_that (not (has id (ids cfg.voters.outgoing))) (learner_in_outgoing id)
    check_that (not (has id (ids cfg.voters.incoming))) (learner_in_incoming id)
    pr ← or_panic (lookup id prs)
    check_that pr.is_learner (learner_not_marked id)

  abbrev pub check_simple : Result (Unit {0})
  check_simple = do
    check_that (is_nil cfg.voters.outgoing) outgoing_not_nil
    check_that (is_nil cfg.learners_next) learners_next_not_nil
    check_that (not cfg.auto_leave) auto_leave_set

  -- `checkInvariants`
  unfoldable pub check_invariants : Result (Unit {0})
  check_invariants = do
    check_each check_tracked (joint_ids cfg.voters)
    check_each check_tracked (ids cfg.learners)
    check_each check_tracked (ids cfg.learners_next)
    check_each check_staged (ids cfg.learners_next)
    check_each check_learner (ids cfg.learners)
    if joint cfg then ok tt else check_simple

  -- `checkAndReturn`
  unfoldable pub check_and_return : Result (Config × ProgressMap)
  check_and_return = do check_invariants; ok (cfg, prs)

module _ (c : Changer) where
  open c use {tracker, last_index}

  -- `checkAndCopy`
  unfoldable pub check_and_copy : Result (Config × ProgressMap)
  unfolding clone
  check_and_copy = check_and_return (clone tracker.config) tracker.progress

  -- `initProgress`
  unfoldable pub init_progress : Config → ProgressMap → ℕ → Bool → Result (Config × ProgressMap)
  init_progress cfg prs id is_learner = do
    cfg' ←
        (if not is_learner
          then add_incoming cfg id
          else ok (record cfg { learners = nil_aware_add cfg.learners id }))
    ok (
      cfg',
      insert id
          (record {
            match = 0;
            next = last_index;
            state = state_probe;
            pending_snapshot = 0;
            recent_active = true;
            probe_sent = false;
            inflights = new_inflights tracker.max_inflight;
            is_learner = is_learner;
          })
          prs,
    )

  -- `makeVoter`, with the progress that it finds.
  unfoldable pub make_voter_from :
      Config → ProgressMap → ℕ → Option Progress → Result (Config × ProgressMap)
  make_voter_from cfg prs id none = init_progress cfg prs id false
  make_voter_from cfg prs id (some pr) = do
    cfg' ←
        add_incoming
          (record cfg {
            learners = nil_aware_delete cfg.learners id;
            learners_next = nil_aware_delete cfg.learners_next id;
          })
          id
    ok (cfg', insert id (record pr { is_learner = false }) prs)

  unfoldable pub make_voter : Config → ProgressMap → ℕ → Result (Config × ProgressMap)
  make_voter cfg prs id = make_voter_from cfg prs id (lookup id prs)

  -- The `switch` of `apply`. The cases for learners and removal are commented out in the source,
  -- and fall to its `default`.
  unfoldable pub apply_type :
      Config → ProgressMap → ConfChangeType → ℕ → Result (Config × ProgressMap)
  apply_type cfg prs add_node id = make_voter cfg prs id
  apply_type cfg prs update_node id = ok (cfg, prs)
  apply_type cfg prs remove_node id = err unexpected_conf_type
  apply_type cfg prs add_learner_node id = err unexpected_conf_type

  -- One round of the loop of `apply`. A change of node 0 is skipped.
  unfoldable pub apply_one : Config → ProgressMap → ConfChangeSingle → Result (Config × ProgressMap)
  apply_one cfg prs cc =
      if cc.node_id == 0 then ok (cfg, prs) else apply_type cfg prs cc.type cc.node_id

  unfoldable pub apply_all :
      List ConfChangeSingle → Config → ProgressMap → Result (Config × ProgressMap)
  apply_all [] cfg prs = ok (cfg, prs)
  apply_all (cc ∷ ccs) cfg prs = do (cfg', prs') ← apply_one cfg prs cc; apply_all ccs cfg' prs'

  -- `apply`
  unfoldable pub apply :
      Config → ProgressMap → List ConfChangeSingle → Result (Config × ProgressMap)
  apply cfg prs ccs = do
    (cfg', prs') ← apply_all ccs cfg prs
    if length (ids cfg'.voters.incoming) == 0 then err removed_all_voters else ok (cfg', prs')

  -- The end of `Simple`: one changed voter at most.
  unfoldable pub limit_changes : Config × ProgressMap → Result (Config × ProgressMap)
  limit_changes (cfg, prs) =
      if ltb 1 (symdiff tracker.voters.incoming cfg.voters.incoming)
      then err many_voters_changed
      else check_and_return cfg prs

  -- `Simple` after `checkAndCopy`
  unfoldable pub change_simple :
      List ConfChangeSingle → Config × ProgressMap → Result (Config × ProgressMap)
  change_simple ccs (cfg, prs) =
      if joint cfg then err in_joint_config else apply cfg prs ccs >>= limit_changes

  -- `Simple`
  unfoldable pub simple : List ConfChangeSingle → Result (Config × ProgressMap)
  simple ccs = check_and_copy >>= change_simple ccs

-- `chain` of restore.go
unfoldable pub chain :
    List (Changer → Result (Config × ProgressMap)) → Changer → Result (Config × ProgressMap)
chain [] chg = ok (chg.tracker.config, chg.tracker.progress)
chain (op ∷ ops) chg = do
  (cfg, prs) ← op chg
  chain ops (record chg { tracker = record chg.tracker { config = cfg; progress = prs } })
