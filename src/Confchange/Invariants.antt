-- ===== src/Confchange/Invariants.antt =====
-- What `checkInvariants` checks.
use native.Mathlib.Decide.{ℕ_discrete}
use etcd_cr.Common.{
  ℕ, ◌≡◌, ◌↔◌, ◌⊎◌, inl, inr, refl, ◌∙◌, true, false, ◌||◌, none, some, List, [], ◌∷◌, arith,
  Result, ok, err, panic, ap, ◌>>◌, Option-cases, if◌then◌else◌,
}
use etcd_cr.Common.Maps.{ids, has, lookup, has-add_id, add_id}
use etcd_cr.Quorum.{JointConfig, joint_ids, add_all}
use etcd_cr.Tracker.{Config, Progress, ProgressMap}
use etcd_cr.Confchange.{
  joint, check_each, check_tracked, check_staged, check_learner, check_simple, check_invariants,
}

-- A sequence passes when both of its parts do.
then_ok : (r s : Result (Unit {0})) → ((do r; s) ≡ ok tt) → (r ≡ ok tt) × (s ≡ ok tt)
then_ok (ok _) s h = (refl, h)
then_ok (err e) s h = cc
then_ok (panic) s h = cc

-- A loop of checks passes exactly when the check passes on each element.
check_each_pass :
    (f : ℕ → Result (Unit {0})) (xs : List ℕ)
    → check_each f xs ≡ ok tt
    → (id : ℕ) → has id xs ≡ true
    → f id ≡ ok tt
unfolding check_each
check_each_pass f [] h id m = cc
check_each_pass f (x ∷ xs) h id m =
    let (here, later) = then_ok (f x) (check_each f xs) h in
    elim (ℕ_discrete id x) [
      | yes e ↦ ap f e ∙ here
      | no ne ↦ check_each_pass f xs later id (ground arith)
    ]

check_each_of :
    (f : ℕ → Result (Unit {0})) (xs : List ℕ)
    → ((id : ℕ) → has id xs ≡ true → f id ≡ ok tt)
    → check_each f xs ≡ ok tt
unfolding check_each
check_each_of f [] h = refl
check_each_of f (x ∷ xs) h =
    let here : f x ≡ ok tt = h x (ground arith) in
    let later : check_each f xs ≡ ok tt = check_each_of f xs (λ id m. h id (ground arith)) in
    rw here later

has-add_all : (c m : List ℕ) (id : ℕ) → has id (add_all c m) ≡ (has id c || has id m)
has-add_all [] m id = refl
has-add_all (x ∷ c) m id = ground (arith, has-add_all c (add_id x m) id, has-add_id x id m)

-- `IDs` is the union of the two halves.
pub has-joint_ids :
    (c : JointConfig) (id : ℕ)
    → has id (joint_ids c) ≡ (has id (ids c.incoming) || has id (ids c.outgoing))
unfolding joint_ids
has-joint_ids c id = ground (
  arith,
  has-add_all (ids c.outgoing) (add_all (ids c.incoming) []) id,
  has-add_all (ids c.incoming) [] id,
)

-- A peer with a progress.
abbrev pub Tracked : ProgressMap → ℕ → Type 0
Tracked prs id = (pr : Progress) × (lookup id prs ≡ some pr)

abbrev pub Staged : Config → ProgressMap → ℕ → Type 0
Staged cfg prs id =
    (has id (ids cfg.voters.outgoing) ≡ true)
    × ((pr : Progress) × (lookup id prs ≡ some pr) × (pr.is_learner ≡ false))

abbrev pub Learner : Config → ProgressMap → ℕ → Type 0
Learner cfg prs id =
    (has id (ids cfg.voters.outgoing) ≡ false)
    × (has id (ids cfg.voters.incoming) ≡ false)
    × ((pr : Progress) × (lookup id prs ≡ some pr) × (pr.is_learner ≡ true))

abbrev pub SimpleRest : Config → Type 0
SimpleRest cfg =
    (joint cfg ≡ true)
    ⊎ ((cfg.voters.outgoing ≡ none) × (cfg.learners_next ≡ none) × (cfg.auto_leave ≡ false))

Staged-Tracked : (cfg : Config) (prs : ProgressMap) (id : ℕ) → Staged cfg prs id → Tracked prs id
Staged-Tracked cfg prs id (o, (pr, e, n)) = (pr, e)

-- A configuration and a progress map that fit together.
pub record Compatible (cfg : Config) (prs : ProgressMap) : Type 0 where
  -- Every voter of either half, learner and staged learner has a progress.
  pub voters_tracked : (id : ℕ) → has id (joint_ids cfg.voters) ≡ true → Tracked prs id
  pub learners_tracked : (id : ℕ) → has id (ids cfg.learners) ≡ true → Tracked prs id
  -- A staged learner is an outgoing voter, and not marked as a learner.
  pub staged : (id : ℕ) → has id (ids cfg.learners_next) ≡ true → Staged cfg prs id
  -- A learner is no voter, and marked as a learner.
  pub learner : (id : ℕ) → has id (ids cfg.learners) ≡ true → Learner cfg prs id
  -- Outside a joint configuration nothing is staged or left automatically, and the outgoing half
  -- and the staged learners are nil.
  pub simple_rest : SimpleRest cfg

module _ (cfg : Config) (prs : ProgressMap) where
  found : (id : ℕ) → (lookup id prs ≡ none) ⊎ Tracked prs id
  found id = Option-cases (lookup id prs)

  Tracked-of : (id : ℕ) → check_tracked cfg prs id ≡ ok tt → Tracked prs id
  Tracked-of id h = elim (found id) [ inl e ↦ ground arith | inr t ↦ t ]

  Tracked-to : (id : ℕ) → Tracked prs id → check_tracked cfg prs id ≡ ok tt
  Tracked-to id (pr, e) = ground arith

  Staged-of : (id : ℕ) → check_staged cfg prs id ≡ ok tt → Staged cfg prs id
  Staged-of id h = ground (arith, found id)

  Staged-to : (id : ℕ) → Staged cfg prs id → check_staged cfg prs id ≡ ok tt
  Staged-to id (o, (pr, e, n)) = ground arith

  Learner-of : (id : ℕ) → check_learner cfg prs id ≡ ok tt → Learner cfg prs id
  Learner-of id h = ground (arith, found id)

  Learner-to : (id : ℕ) → Learner cfg prs id → check_learner cfg prs id ≡ ok tt
  Learner-to id (o, i, (pr, e, n)) = ground arith

  simple_of : (if joint cfg then ok tt else check_simple cfg prs) ≡ ok tt → SimpleRest cfg
  simple_of h = ground arith

  simple_to : SimpleRest cfg → (if joint cfg then ok tt else check_simple cfg prs) ≡ ok tt
  simple_to h = ground arith

  pub check_invariants_sound : check_invariants cfg prs ≡ ok tt → Compatible cfg prs
  unfolding check_invariants
  check_invariants_sound h =
      let (t1, h1) =
        then_ok (check_each (check_tracked cfg prs) (joint_ids cfg.voters))
          (do
            check_each (check_tracked cfg prs) (ids cfg.learners)
            check_each (check_tracked cfg prs) (ids cfg.learners_next)
            check_each (check_staged cfg prs) (ids cfg.learners_next)
            check_each (check_learner cfg prs) (ids cfg.learners)
            if joint cfg then ok tt else check_simple cfg prs)
          h in
      let (t2, h2) =
        then_ok (check_each (check_tracked cfg prs) (ids cfg.learners))
          (do
            check_each (check_tracked cfg prs) (ids cfg.learners_next)
            check_each (check_staged cfg prs) (ids cfg.learners_next)
            check_each (check_learner cfg prs) (ids cfg.learners)
            if joint cfg then ok tt else check_simple cfg prs)
          h1 in
      let (t3, h3) =
        then_ok (check_each (check_tracked cfg prs) (ids cfg.learners_next))
          (do
            check_each (check_staged cfg prs) (ids cfg.learners_next)
            check_each (check_learner cfg prs) (ids cfg.learners)
            if joint cfg then ok tt else check_simple cfg prs)
          h2 in
      let (t4, h4) =
        then_ok (check_each (check_staged cfg prs) (ids cfg.learners_next))
          (do
            check_each (check_learner cfg prs) (ids cfg.learners)
            if joint cfg then ok tt else check_simple cfg prs)
          h3 in
      let (t5, h5) =
        then_ok (check_each (check_learner cfg prs) (ids cfg.learners))
          (if joint cfg then ok tt else check_simple cfg prs) h4 in
      record {
        voters_tracked = λ id m.
            Tracked-of id (check_each_pass (check_tracked cfg prs) (joint_ids cfg.voters) t1 id m);
        learners_tracked = λ id m.
            Tracked-of id (check_each_pass (check_tracked cfg prs) (ids cfg.learners) t2 id m);
        staged = λ id m.
            Staged-of id (check_each_pass (check_staged cfg prs) (ids cfg.learners_next) t4 id m);
        learner = λ id m.
            Learner-of id (check_each_pass (check_learner cfg prs) (ids cfg.learners) t5 id m);
        simple_rest = simple_of h5;
      }

  pub check_invariants_complete : Compatible cfg prs → check_invariants cfg prs ≡ ok tt
  unfolding check_invariants
  check_invariants_complete v =
      let t1 =
        check_each_of (check_tracked cfg prs) (joint_ids cfg.voters)
          (λ id m. Tracked-to id (v.voters_tracked id m)) in
      let t2 =
        check_each_of (check_tracked cfg prs) (ids cfg.learners)
          (λ id m. Tracked-to id (v.learners_tracked id m)) in
      let t3 =
        check_each_of (check_tracked cfg prs) (ids cfg.learners_next)
          (λ id m. Tracked-to id (Staged-Tracked cfg prs id (v.staged id m))) in
      let t4 =
        check_each_of (check_staged cfg prs) (ids cfg.learners_next)
          (λ id m. Staged-to id (v.staged id m)) in
      let t5 =
        check_each_of (check_learner cfg prs) (ids cfg.learners)
          (λ id m. Learner-to id (v.learner id m)) in
      rw (t1, t2, t3, t4, t5) (simple_to v.simple_rest)

  -- `checkInvariants` passes exactly when the configuration and the progress map fit together.
  pub check_invariants_iff : (check_invariants cfg prs ≡ ok tt) ↔ Compatible cfg prs
  check_invariants_iff = (check_invariants_sound, check_invariants_complete)
