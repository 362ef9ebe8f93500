-- ===== src/Confchange/Adding.antt =====
-- `Simple` of a change that adds one voter, in a configuration of voters only.
use etcd_cr.Common.{
  ℕ, ◌≤◌, ◌≡◌, ◌≢◌, refl, true, false, ◌==◌, ltb, Option, none, some, List, [], ◌∷◌, arith, ok,
  length, inl, inr, ◌∙◌, ap, Option-cases, Bool-cases,
}
use etcd_cr.Common.Maps.{has, add_id, has-add_id, lookup, insert, lookup-insert}
use etcd_cr.Raftpb.{ConfChangeSingle, add_node}
use etcd_cr.Tracker.{Config, ProgressMap, Progress, new_inflights, state_probe, clone}
use etcd_cr.Confchange.{
  Changer, symdiff, missing_in, init_progress, make_voter, make_voter_from, apply_one, apply_type,
  apply_all, apply, limit_changes, change_simple, simple, check_and_copy, check_and_return,
}
use etcd_cr.Confchange.Invariants.{Compatible, Tracked, check_invariants_complete, has-joint_ids}

-- A configuration of the given voters, and nothing else.
abbrev pub plain : List ℕ → Config
plain xs = record {
  voters = record { incoming = some xs; outgoing = none };
  auto_leave = false;
  learners = none;
  learners_next = none;
}

abbrev pub AllTracked : List ℕ → ProgressMap → Type 0
AllTracked xs prs = (id : ℕ) → has id xs ≡ true → Tracked prs id

plain-Compatible : (xs : List ℕ) (prs : ProgressMap) → AllTracked xs prs → Compatible (plain xs) prs
plain-Compatible xs prs t = record {
  voters_tracked = λ id m. t id (ground (arith, has-joint_ids (plain xs).voters id));
  learners_tracked = λ id m. cc;
  staged = λ id m. cc;
  learner = λ id m. cc;
  simple_rest = inr (refl, refl, refl);
}

-- The progress of a peer that was added: the old one as a voter, or a new one.
abbrev pub added_progress : Changer → Option Progress → Progress
added_progress c none = record {
  match = 0;
  next = c.last_index;
  state = state_probe;
  pending_snapshot = 0;
  recent_active = true;
  probe_sent = false;
  inflights = new_inflights c.tracker.max_inflight;
  is_learner = false;
}
added_progress c (some pr) = record pr { is_learner = false }

-- The progress map after a peer was added.
abbrev pub added : Changer → ℕ → ProgressMap → ProgressMap
added c id prs = insert id (added_progress c (lookup id prs)) prs

pub added-AllTracked :
    (c : Changer) (id : ℕ) (xs : List ℕ) (prs : ProgressMap)
    → AllTracked xs prs
    → AllTracked (add_id id xs) (added c id prs)
added-AllTracked c id xs prs t j m = elim (Bool-cases (id == j)) [
  | inl same ↦
      let pr = added_progress c (lookup id prs) in (pr, lookup-insert id j pr prs ∙ ground arith)
  | inr other ↦
      let old : has j xs ≡ true = ground (arith, has-add_id id j xs) in
      let (pr, e) = t j old in
      (pr, lookup-insert id j (added_progress c (lookup id prs)) prs ∙ (rw other e))
]

missing_in_self : (l r : List ℕ) → ((j : ℕ) → has j l ≡ true → has j r ≡ true) → missing_in l r ≡ 0
missing_in_self [] r h = refl
missing_in_self (x ∷ l) r h =
    let here : has x r ≡ true = h x (ground arith) in
    let rest : missing_in l r ≡ 0 = missing_in_self l r (λ j m. h j (ground arith)) in
    ground (arith, here, rest)

symdiff-add_id : (id : ℕ) (xs : List ℕ) → symdiff (some xs) (some (add_id id xs)) ≤ 1
unfolding symdiff
symdiff-add_id id xs = elim (Bool-cases (has id xs)) [
  | inl old ↦ ground (arith, missing_in_self xs xs (λ j m. m))
  | inr new ↦
      let a : missing_in xs (id ∷ xs) ≡ 0 = missing_in_self xs (id ∷ xs) (λ j m. ground arith) in
      let b : missing_in xs xs ≡ 0 = missing_in_self xs xs (λ j m. m) in ground (arith, a, b)
]

make_voter-plain :
    (c : Changer) (id : ℕ) (xs : List ℕ) (prs : ProgressMap)
    → make_voter c (plain xs) prs id ≡ ok (plain (add_id id xs), added c id prs)
unfolding make_voter make_voter_from init_progress
make_voter-plain c id xs prs = elim (Option-cases (lookup id prs)) [
  | inl e ↦ rw e refl
  | inr (pr, e) ↦ rw e refl
]

-- The change that adds a voter.
abbrev pub adding : ℕ → List ConfChangeSingle
adding id = record { type = add_node; node_id = id } ∷ []

not_empty : (id : ℕ) (xs : List ℕ) → (length (add_id id xs) == 0) ≡ false
not_empty id [] = ground arith
not_empty id (x ∷ xs) = ground arith

apply-plain :
    (c : Changer) (id : ℕ) (xs : List ℕ) (prs : ProgressMap)
    → (id == 0) ≡ false
    → apply c (plain xs) prs (adding id) ≡ ok (plain (add_id id xs), added c id prs)
unfolding apply apply_all apply_one apply_type
apply-plain c id xs prs n = rw (n, make_voter-plain c id xs prs, not_empty id xs) refl

-- The changer with a configuration of voters only.
abbrev with_plain : Changer → List ℕ → Changer
with_plain c xs = record c { tracker = record c.tracker { config = plain xs } }

simple-plain :
    (c : Changer) (id : ℕ) (xs : List ℕ)
    → (id == 0) ≡ false
    → AllTracked xs c.tracker.progress
    → simple (with_plain c xs) (adding id)
      ≡ ok (plain (add_id id xs), added c id c.tracker.progress)
unfolding simple change_simple limit_changes check_and_copy check_and_return clone
simple-plain c id xs n t =
    let prs = c.tracker.progress in
    let few : ltb 1 (symdiff (some xs) (some (add_id id xs))) ≡ false =
      ground (arith, symdiff-add_id id xs) in
    rw
      (
        check_invariants_complete (plain xs) prs (plain-Compatible xs prs t),
        apply-plain (with_plain c xs) id xs prs n,
        few,
        check_invariants_complete (plain (add_id id xs)) (added c id prs)
            (plain-Compatible (add_id id xs) (added c id prs) (added-AllTracked c id xs prs t)),
      )
      refl

-- `Simple` of a change that adds a peer other than 0 to a configuration that has only voters, all of
-- them with a progress, succeeds: the peer is among the voters, and has a progress as a voter.
pub simple-adding :
    (c : Changer) (id : ℕ) (xs : List ℕ)
    → id ≢ 0
    → c.tracker.config ≡ plain xs
    → AllTracked xs c.tracker.progress
    → simple c (adding id) ≡ ok (plain (add_id id xs), added c id c.tracker.progress)
simple-adding c id xs n e t =
    ap (λ cfg. simple (record c { tracker = record c.tracker { config = cfg } }) (adding id)) e
    ∙ simple-plain c id xs (ground arith) t
