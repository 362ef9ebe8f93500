-- ===== src/Tests/Members.antt =====
-- A fourth peer joins three.
use etcd_cr.Common.{
  inl, inr, arith, Bool-cases, ◌==◌, ◌≤◌, ◌≡◌, ◌↔◌, refl, false, none, some, List, [], ◌∷◌, ok,
}
use etcd_cr.Raftpb.{ConfChangeSingle, add_node}
use etcd_cr.Quorum.{joint_ids}
use etcd_cr.Tracker.{Config, ProgressMap, clone}
use etcd_cr.Confchange.{
  Changer, joint, symdiff, check_each, check_invariants, check_and_return, check_and_copy,
  init_progress, make_voter, make_voter_from, apply_type, apply_one, apply_all, apply,
  limit_changes, change_simple, simple,
}
use etcd_cr.Confchange.Invariants.{Compatible, check_invariants_iff}
use etcd_cr.Confchange.Simple.{simple-Compatible}
use etcd_cr.Confchange.Adding.{AllTracked, simple-adding}
use etcd_cr.Tests.Votes.{peer, three_peers}

abbrev changer : Changer
changer = record { tracker = three_peers []; last_index = 1 }

abbrev join : List ConfChangeSingle
join = record { type = add_node; node_id = 4 } ∷ []

abbrev four : Config
four = record {
  voters = record { incoming = some (4 ∷ 1 ∷ 2 ∷ 3 ∷ []); outgoing = none };
  auto_leave = false;
  learners = none;
  learners_next = none;
}

abbrev four_peers : ProgressMap
four_peers = peer 1 ∷ peer 2 ∷ peer 3 ∷ peer 4 ∷ []

join-simple : simple changer join ≡ ok (four, four_peers)
unfolding simple check_and_copy change_simple limit_changes check_and_return check_invariants clone
    symdiff check_each joint_ids apply apply_all apply_one apply_type make_voter make_voter_from
    init_progress
join-simple = refl

check_invariants_iff_example :
    (check_invariants four four_peers ≡ ok tt) ↔ Compatible four four_peers
check_invariants_iff_example = check_invariants_iff four four_peers

simple-Compatible_example :
    Compatible (clone (three_peers []).config) (three_peers []).progress
    × (joint (three_peers []).config ≡ false)
    × (apply changer (clone (three_peers []).config) (three_peers []).progress join
        ≡ ok (four, four_peers))
    × Compatible four four_peers
    × (symdiff (some (1 ∷ 2 ∷ 3 ∷ [])) (some (4 ∷ 1 ∷ 2 ∷ 3 ∷ [])) ≤ 1)
simple-Compatible_example = simple-Compatible changer join four four_peers join-simple

three_tracked : AllTracked (1 ∷ 2 ∷ 3 ∷ []) (three_peers []).progress
three_tracked id m = elim (Bool-cases (1 == id)) [
  | inl a ↦ ((peer 1).1, ground arith)
  | inr a ↦ elim (Bool-cases (2 == id)) [
    | inl b ↦ ((peer 2).1, ground arith)
    | inr b ↦ ((peer 3).1, ground arith)
  ]
]

simple-adding_example : simple changer join ≡ ok (four, four_peers)
simple-adding_example =
    simple-adding changer 4 (1 ∷ 2 ∷ 3 ∷ []) (λ h. absurd (omega arith)) refl three_tracked
