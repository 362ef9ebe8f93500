-- ===== src/Confchange/Simple.antt =====
-- The membership that `Simple` gives.
use etcd_cr.Common.{
  ◌≤◌, ◌≡◌, false, List, arith, ok, ◌>>=◌, ok_injective, bind_ok, subst, ◌∙◌, ap, sym,
}
use etcd_cr.Raftpb.{ConfChangeSingle}
use etcd_cr.Tracker.{Config, ProgressMap, clone}
use etcd_cr.Confchange.{
  Changer, joint, symdiff, simple, change_simple, limit_changes, apply, check_and_copy,
  check_and_return, check_invariants,
}
use etcd_cr.Confchange.Invariants.{Compatible, check_invariants_sound}

-- What a checked pair is.
check_and_return_lem :
    (cfg : Config) (prs : ProgressMap) (p : Config × ProgressMap)
    → check_and_return cfg prs ≡ ok p
    → Compatible cfg prs × (p ≡ (cfg, prs))
unfolding check_and_return
check_and_return_lem cfg prs p h =
    let (u, passed, e) = bind_ok (check_invariants cfg prs) (λ _. ok (cfg, prs)) p h in
    (check_invariants_sound cfg prs passed, sym (ok_injective e))

limit_changes_lem :
    (c : Changer) (q p : Config × ProgressMap)
    → limit_changes c q ≡ ok p
    → Compatible p.0 p.1 × (symdiff c.tracker.voters.incoming p.0.voters.incoming ≤ 1) × (q ≡ p)
unfolding limit_changes
limit_changes_lem c (cfg, prs) p h =
    let (few, checked) : (symdiff c.tracker.voters.incoming cfg.voters.incoming ≤ 1)
        × (check_and_return cfg prs ≡ ok p) =
      ground arith in
    let (fits, e) = check_and_return_lem cfg prs p checked in
    (subst (λ q. Compatible q.0 q.1) (sym e) fits, rw e few, sym e)

change_simple_lem :
    (c : Changer) (ccs : List ConfChangeSingle) (q p : Config × ProgressMap)
    → change_simple c ccs q ≡ ok p
    → (joint q.0 ≡ false)
      × (apply c q.0 q.1 ccs ≡ ok p)
      × Compatible p.0 p.1
      × (symdiff c.tracker.voters.incoming p.0.voters.incoming ≤ 1)
unfolding change_simple
change_simple_lem c ccs (cfg, prs) p h =
    let (simple, rest) : (joint cfg ≡ false) × ((apply c cfg prs ccs >>= limit_changes c) ≡ ok p) =
      ground arith in
    let (q, e, last) = bind_ok (apply c cfg prs ccs) (limit_changes c) p rest in
    let (fits, few, same) = limit_changes_lem c q p last in (simple, e ∙ ap ok same, fits, few)

-- `Simple` succeeds only from a configuration that is not joint and whose copy by `Clone`, which
-- drops `AutoLeave`, is valid with the progress map; whether `AutoLeave` was set does not count.
-- It then gives what `apply` makes of this copy, a valid configuration whose incoming voters differ
-- from those before in at most one peer.
pub simple-Compatible :
    (c : Changer) (ccs : List ConfChangeSingle) (cfg : Config) (prs : ProgressMap)
    → simple c ccs ≡ ok (cfg, prs)
    → Compatible (clone c.tracker.config) c.tracker.progress
      × (joint c.tracker.config ≡ false)
      × (apply c (clone c.tracker.config) c.tracker.progress ccs ≡ ok (cfg, prs))
      × Compatible cfg prs
      × (symdiff c.tracker.voters.incoming cfg.voters.incoming ≤ 1)
unfolding simple check_and_copy clone
simple-Compatible c ccs cfg prs h =
    let (q, copied, changed) = bind_ok (check_and_copy c) (change_simple c ccs) (cfg, prs) h in
    let (fits, e) = check_and_return_lem (clone c.tracker.config) c.tracker.progress q copied in
    let (simple, applied, fits', few) = change_simple_lem c ccs q (cfg, prs) changed in
    (
      fits,
      ap (λ q. joint q.0) (sym e) ∙ simple,
      ap (λ q. apply c q.0 q.1 ccs) (sym e) ∙ applied,
      fits',
      few,
    )
