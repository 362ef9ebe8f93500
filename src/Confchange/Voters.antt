-- ===== src/Confchange/Voters.antt =====
-- The voters that `apply` gives.
use etcd_cr.Common.{
  removed_all_voters, ℕ, ◌≡◌, ◌≢◌, ◌<◌, refl, Bool, true, false, ◌||◌, ◌==◌, Option, none, some,
  List, [], ◌∷◌, arith, ok, err, if◌then◌else◌, ok_injective, bind_ok, length, ◌⊎◌, inl, inr, sym,
  subst, ◌∙◌, ap, Bool-cases,
}
use etcd_cr.Common.Maps.{IdSet, ids, has, put_id, has-add_id, lookup, insert, lookup-insert}
use etcd_cr.Raftpb.{
  ConfChangeSingle, ConfChangeType, add_node, remove_node, update_node, add_learner_node,
}
use etcd_cr.Tracker.{Config, ProgressMap, Progress, new_inflights, state_probe}
use etcd_cr.Confchange.{
  Changer, add_incoming, init_progress, make_voter, make_voter_from, nil_aware_delete, apply_one,
  apply_type, apply_all, apply,
}

-- A change that makes the peer a voter.
abbrev pub adds_type : ConfChangeType → ℕ → ℕ → Bool
adds_type add_node id j = id == j
adds_type update_node id j = false
adds_type remove_node id j = false
adds_type add_learner_node id j = false

abbrev pub adds : ℕ → ConfChangeSingle → Bool
adds j cc = if cc.node_id == 0 then false else adds_type cc.type cc.node_id j

abbrev pub any_adds : ℕ → List ConfChangeSingle → Bool
any_adds j [] = false
any_adds j (cc ∷ ccs) = adds j cc || any_adds j ccs

-- What adding a peer to the incoming voters does.
Added : Config → ℕ → Config → Type 0
Added cfg id cfg' =
    ((j : ℕ) → has j (ids cfg'.voters.incoming) ≡ (id == j || has j (ids cfg.voters.incoming)))
    × (cfg'.voters.outgoing ≡ cfg.voters.outgoing)
    × (cfg'.auto_leave ≡ cfg.auto_leave)

put_id-has :
    (id : ℕ) (s t : IdSet)
    → put_id id s ≡ ok t
    → (j : ℕ) → has j (ids t) ≡ (id == j || has j (ids s))
put_id-has id none t h j = cc
put_id-has id (some xs) t h j = ap (λ t. has j (ids t)) (sym (ok_injective h)) ∙ has-add_id id j xs

add_incoming-Added :
    (cfg cfg' : Config) (id : ℕ)
    → add_incoming cfg id ≡ ok cfg'
    → Added cfg id cfg' × (cfg'.learners ≡ cfg.learners)
unfolding Added
add_incoming-Added cfg cfg' id h =
    let (t, e, f) =
      bind_ok (put_id id cfg.voters.incoming)
        (λ t. ok (record cfg { voters = record cfg.voters { incoming = t } })) cfg' h in
    let g = ok_injective f in
    (
      (
        λ j.
            ap (λ cfg. has j (ids cfg.voters.incoming)) (sym g)
            ∙ put_id-has id cfg.voters.incoming t e j,
        ap (λ cfg. cfg.voters.outgoing) (sym g),
        ap (λ cfg. cfg.auto_leave) (sym g),
      ),
      ap (λ cfg. cfg.learners) (sym g),
    )

-- The map after a peer became a voter.
abbrev VoterSet : ProgressMap → ℕ → ProgressMap → Type 0
VoterSet prs id prs' = (pr : Progress) × (prs' ≡ insert id pr prs) × (pr.is_learner ≡ false)

make_voter_from-Added :
    (c : Changer) (cfg cfg' : Config) (prs prs' : ProgressMap) (id : ℕ) (o : Option Progress)
    → make_voter_from c cfg prs id o ≡ ok (cfg', prs')
    → Added cfg id cfg' × VoterSet prs id prs'
unfolding make_voter_from init_progress Added
make_voter_from-Added c cfg cfg' prs prs' id none h =
    let pr : Progress = record {
      match = 0;
      next = c.last_index;
      state = state_probe;
      pending_snapshot = 0;
      recent_active = true;
      probe_sent = false;
      inflights = new_inflights c.tracker.max_inflight;
      is_learner = false;
    } in
    let (cfg1, e, f) =
      bind_ok (add_incoming cfg id) (λ cfg1. ok (cfg1, insert id pr prs)) (cfg', prs') h in
    let g = ok_injective f in
    let (added, u) = add_incoming-Added cfg cfg' id (e ∙ ap (λ p. ok p.0) g) in
    (added, (pr, ap (λ p. p.1) (sym g), refl))
make_voter_from-Added c cfg cfg' prs prs' id (some old) h =
    let cfg0 : Config = record cfg {
      learners = nil_aware_delete cfg.learners id;
      learners_next = nil_aware_delete cfg.learners_next id;
    } in
    let pr1 : Progress = record old { is_learner = false } in
    let (cfg1, e, f) =
      bind_ok (add_incoming cfg0 id) (λ cfg1. ok (cfg1, insert id pr1 prs)) (cfg', prs') h in
    let g = ok_injective f in
    let (added, u) = add_incoming-Added cfg0 cfg' id (e ∙ ap (λ p. ok p.0) g) in
    (added, (pr1, ap (λ p. p.1) (sym g), refl))

-- What the changes do to the voters and to the other peers' progress.
unfoldable pub Changed : (ℕ → Bool) → Config → ProgressMap → Config → ProgressMap → Type 0
Changed added cfg prs cfg' prs' =
    ((j : ℕ) → has j (ids cfg'.voters.incoming) ≡ (added j || has j (ids cfg.voters.incoming)))
    × (cfg'.voters.outgoing ≡ cfg.voters.outgoing)
    × (cfg'.auto_leave ≡ cfg.auto_leave)
    × ((j : ℕ) → added j ≡ false → lookup j prs' ≡ lookup j prs)
    × ((j : ℕ)
        → added j ≡ true
        → (pr : Progress) × (lookup j prs' ≡ some pr) × (pr.is_learner ≡ false))

true-false : true ≢ false
true-false h = cc

unchanged :
    (added : ℕ → Bool) (cfg cfg' : Config) (prs prs' : ProgressMap)
    → ((j : ℕ) → added j ≡ false)
    → cfg ≡ cfg'
    → prs ≡ prs'
    → Changed added cfg prs cfg' prs'
unfolding Changed
unchanged added cfg cfg' prs prs' none_added e f = (
  (λ j.
      ap (λ cfg. has j (ids cfg.voters.incoming)) (sym e)
      ∙ ap (λ b. b || has j (ids cfg.voters.incoming)) (sym (none_added j))),
  ap (λ cfg. cfg.voters.outgoing) (sym e),
  ap (λ cfg. cfg.auto_leave) (sym e),
  (λ j n. ap (lookup j) (sym f)),
  (λ j y. absurd (true-false (sym y ∙ none_added j))),
)

apply_type-Changed :
    (c : Changer) (cfg cfg' : Config) (prs prs' : ProgressMap) (t : ConfChangeType) (id : ℕ)
    → apply_type c cfg prs t id ≡ ok (cfg', prs')
    → Changed (adds_type t id) cfg prs cfg' prs'
unfolding apply_type make_voter Added Changed
apply_type-Changed c cfg cfg' prs prs' add_node id h =
    let ((a, b, d), (pr, e, l)) = make_voter_from-Added c cfg cfg' prs prs' id (lookup id prs) h in
    (
      a,
      b,
      d,
      (λ j n. ap (lookup j) e ∙ (lookup-insert id j pr prs ∙ ground arith)),
      (λ j y. (pr, ap (lookup j) e ∙ (lookup-insert id j pr prs ∙ ground arith), l)),
    )
apply_type-Changed c cfg cfg' prs prs' update_node id h =
    unchanged (adds_type update_node id) cfg cfg' prs prs' (λ j. refl)
      (ap (λ p. p.0) (ok_injective h)) (ap (λ p. p.1) (ok_injective h))
apply_type-Changed c cfg cfg' prs prs' remove_node id h = cc
apply_type-Changed c cfg cfg' prs prs' add_learner_node id h = cc

one-Changed :
    (c : Changer) (cfg cfg' : Config) (prs prs' : ProgressMap) (t : ConfChangeType) (id : ℕ)
    (skip : Bool)
    → (if skip then ok (cfg, prs) else apply_type c cfg prs t id) ≡ ok (cfg', prs')
    → Changed (λ j. if skip then false else adds_type t id j) cfg prs cfg' prs'
one-Changed c cfg cfg' prs prs' t id true h =
    unchanged (λ j. false) cfg cfg' prs prs' (λ j. refl) (ap (λ p. p.0) (ok_injective h))
      (ap (λ p. p.1) (ok_injective h))
one-Changed c cfg cfg' prs prs' t id false h = apply_type-Changed c cfg cfg' prs prs' t id h

apply_one-Changed :
    (c : Changer) (cfg cfg' : Config) (prs prs' : ProgressMap) (cc : ConfChangeSingle)
    → apply_one c cfg prs cc ≡ ok (cfg', prs')
    → Changed (λ j. adds j cc) cfg prs cfg' prs'
unfolding apply_one
apply_one-Changed c cfg cfg' prs prs' cc h =
    one-Changed c cfg cfg' prs prs' cc.type cc.node_id (cc.node_id == 0) h

-- A peer keeps being a voter's progress when later changes do not add it.
Changed-trans :
    (a b : ℕ → Bool) (cfg cfg1 cfg2 : Config) (prs prs1 prs2 : ProgressMap)
    → Changed a cfg prs cfg1 prs1
    → Changed b cfg1 prs1 cfg2 prs2
    → Changed (λ j. a j || b j) cfg prs cfg2 prs2
unfolding Changed
Changed-trans a b cfg cfg1 cfg2 prs prs1 prs2 (v, o, l, k, m) (v', o', l', k', m') = (
  (λ j. ground (arith, v j, v' j)),
  o' ∙ o,
  l' ∙ l,
  (λ j n. ground (arith, k j, k' j)),
  (λ j y. elim (Bool-cases (b j)) [
    | inl yb ↦ m' j yb
    | inr nb ↦ let ya : a j ≡ true = ground arith in let (pr, e, f) = m j ya in (pr, k' j nb ∙ e, f)
  ]),
)

-- The changes of a list, in turn.
apply_all-Changed :
    (c : Changer) (ccs : List ConfChangeSingle) (cfg cfg' : Config) (prs prs' : ProgressMap)
    → apply_all c ccs cfg prs ≡ ok (cfg', prs')
    → Changed (λ j. any_adds j ccs) cfg prs cfg' prs'
unfolding apply_all
apply_all-Changed c [] cfg cfg' prs prs' h =
    unchanged (λ j. false) cfg cfg' prs prs' (λ j. refl) (ap (λ p. p.0) (ok_injective h))
      (ap (λ p. p.1) (ok_injective h))
apply_all-Changed c (cc ∷ ccs) cfg cfg' prs prs' h =
    let ((cfg1, prs1), e, f) =
      bind_ok (apply_one c cfg prs cc) (λ (cfg1, prs1). apply_all c ccs cfg1 prs1) (cfg', prs') h in
    Changed-trans (λ j. adds j cc) (λ j. any_adds j ccs) cfg cfg1 cfg' prs prs1 prs'
      (apply_one-Changed c cfg cfg1 prs prs1 cc e) (apply_all-Changed c ccs cfg1 cfg' prs1 prs' f)

zero_or_more : (n : ℕ) → ((n == 0) ≡ true) ⊎ (0 < n)
zero_or_more n = ground arith

some_left :
    (cfg : Config) (prs : ProgressMap) (p : Config × ProgressMap)
    → (if length (ids cfg.voters.incoming) == 0 then err removed_all_voters else ok (cfg, prs))
      ≡ ok p
    → (0 < length (ids cfg.voters.incoming)) × ((cfg, prs) ≡ p)
some_left cfg prs p h = ground (arith, zero_or_more (length (ids cfg.voters.incoming)))

-- A successful `apply` leaves at least one incoming voter.
apply-Changed :
    (c : Changer) (cfg : Config) (prs : ProgressMap) (ccs : List ConfChangeSingle) (cfg' : Config)
    (prs' : ProgressMap)
    → apply c cfg prs ccs ≡ ok (cfg', prs')
    → Changed (λ j. any_adds j ccs) cfg prs cfg' prs' × (0 < length (ids cfg'.voters.incoming))
unfolding apply
apply-Changed c cfg prs ccs cfg' prs' h =
    let ((cfg1, prs1), e, f) =
      bind_ok (apply_all c ccs cfg prs)
        (λ (cfg', prs').
          if length (ids cfg'.voters.incoming) == 0
          then err removed_all_voters
          else ok (cfg', prs'))
        (cfg', prs') h in
    let (left, g) = some_left cfg1 prs1 (cfg', prs') f in
    (
      apply_all-Changed c ccs cfg cfg' prs prs' (e ∙ ap ok g),
      subst (λ p. 0 < length (ids p.0.voters.incoming)) g left,
    )
