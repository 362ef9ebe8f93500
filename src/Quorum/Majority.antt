-- ===== src/Quorum/Majority.antt =====
-- What the vote of a majority configuration decides.
use mathlib.Core.List.{Perm, Permᴰ}
use mathlib.Core.Logic.{∥∥₁_elim}
use native.Mathlib.Nat.{ℕ_set}
use etcd_cr.Common.{
  ℕ, suc, ◌+◌, ◌*◌, ◌≤◌, ◌<◌, ◌≡◌, ◌≢◌, refl, ap, ap₂, ◌∙◌, Bool, true, false, Option, none, some,
  List, [], ◌∷◌, arith, length, ◌==◌, if◌then◌else◌, leb, ltb, ◌⊎◌, inl, inr,
}
use etcd_cr.Common.Maps.{IdSet, ids, lookup, has}
use etcd_cr.Quorum.{
  Votes, VoteResult, vote_won, vote_lost, vote_pending, zero_tally, majority_vote_result,
}
use etcd_cr.Quorum.Counting.{voted, is_vote, count_votes-voted}

-- The result by the numbers of yes and no votes alone: an empty configuration wins; otherwise
-- more than half of the voters must have voted yes to win, and the vote is lost as soon as at
-- least half have voted no.
abbrev pub result_of : ℕ → ℕ → ℕ → VoteResult
result_of n in_favour against =
    if n == 0
    then vote_won
    else (if ltb n (2 * in_favour)
        then vote_won
        else (if leb n (2 * against) then vote_lost else vote_pending))

-- `VoteResult` of a majority configuration is won exactly when more than half of its voters have
-- voted yes or it has none, lost exactly when it has voters and at least half have voted no, and
-- pending otherwise. Votes of others do not count.
pub majority_vote_result-eq :
    (c : IdSet) (votes : Votes)
    → majority_vote_result c votes
      ≡ result_of (length (ids c)) (voted true (ids c) votes) (voted false (ids c) votes)
unfolding majority_vote_result
majority_vote_result-eq c votes = ground (arith, count_votes-voted (ids c) votes zero_tally)

-- Two sets of yes votes that are together more than the voters have a voter in common.
common_voter :
    (c : List ℕ) (v w : Votes)
    → length c < voted true c v + voted true c w
    → (id : ℕ) × (has id c ≡ true) × (lookup id v ≡ some true) × (lookup id w ≡ some true)
common_voter [] v w h = absurd (omega arith)
common_voter (id ∷ c) v w h = elim (both (lookup id v) (lookup id w)) [
  | inl (p, q) ↦ (id, ground arith, p, q)
  | inr few ↦
      let (j, m, p, q) = common_voter c v w (omega (arith, few)) in (j, ground (arith, m), p, q)
]
  where
    both :
        (a b : Option Bool)
        → ((a ≡ some true) × (b ≡ some true)) ⊎ (is_vote true a + is_vote true b ≤ 1)
    both (some true) (some true) = inl (refl, refl)
    both (some true) (some false) = inr (omega arith)
    both (some true) none = inr (omega arith)
    both (some false) b = inr (ground arith)
    both none b = inr (ground arith)

-- If the vote of a configuration with voters is won on two sets of votes, then some voter of it has
-- voted yes in both.
pub majority-overlap :
    (c : IdSet) (v w : Votes)
    → ids c ≢ []
    → majority_vote_result c v ≡ vote_won
    → majority_vote_result c w ≡ vote_won
    → (id : ℕ) × (has id (ids c) ≡ true) × (lookup id v ≡ some true) × (lookup id w ≡ some true)
majority-overlap c v w ne p q =
    common_voter (ids c) v w
      (ground (arith, majority_vote_result-eq c v, majority_vote_result-eq c w))

-- Every vote in `v` is in `w` too.
abbrev pub Extends : Votes → Votes → Type 0
Extends v w = (id : ℕ) (b : Bool) → lookup id v ≡ some b → lookup id w ≡ some b

voted_mono : (b : Bool) (c : List ℕ) (v w : Votes) → Extends v w → voted b c v ≤ voted b c w
voted_mono b [] v w h = omega arith
voted_mono b (id ∷ c) v w h = omega (arith, voted_mono b c v w h, one b (lookup id v) (h id))
  where
    one :
        (b : Bool) (x : Option Bool)
        → ((a : Bool) → x ≡ some a → lookup id w ≡ some a)
        → is_vote b x ≤ is_vote b (lookup id w)
    one b none k = omega arith
    one true (some a) k = ground (arith, k a refl)
    one false (some a) k = ground (arith, k a refl)

-- A decided vote stays decided the same way, whatever votes come in later.
pub majority-stable :
    (c : IdSet) (v w : Votes)
    → Extends v w
    → majority_vote_result c v ≢ vote_pending
    → majority_vote_result c w ≡ majority_vote_result c v
majority-stable c v w h d = ground (
  arith,
  majority_vote_result-eq c v,
  majority_vote_result-eq c w,
  voted_mono true (ids c) v w h,
  voted_mono false (ids c) v w h,
  count_votes-voted (ids c) w zero_tally,
)

voted-perm :
    (b : Bool) (v : Votes) {c c' : List ℕ}
    → Permᴰ c c'
    → (voted b c v ≡ voted b c' v) × (length c ≡ length c')
voted-perm b v Permᴰ.nil = (refl, refl)
voted-perm b v (Permᴰ.cons e p) =
    let (h, k) = voted-perm b v p in (ap₂ (λ j n. is_vote b (lookup j v) + n) e h, ap suc k)
voted-perm b v (Permᴰ.swap {a} {b = x} {a' = y} {b' = z} {l} e f) = (rw (e, f) (omega arith), refl)
voted-perm b v (Permᴰ.trans p q) =
    let (h, k) = voted-perm b v p in let (h', k') = voted-perm b v q in (h ∙ h', k ∙ k')

-- The result does not depend on the order in which `range` visits the voters.
majority-perm :
    (c c' : List ℕ) (v : Votes)
    → Perm c c'
    → majority_vote_result (some c) v ≡ majority_vote_result (some c') v
majority-perm c c' v p = ground (
  arith,
  majority_vote_result-eq (some c) v,
  majority_vote_result-eq (some c') v,
  ∥∥₁_elim p (ℕ_set _ _) (λ q. (voted-perm true v q).0),
  ∥∥₁_elim p (ℕ_set _ _) (λ q. (voted-perm false v q).0),
  ∥∥₁_elim p (ℕ_set _ _) (λ q. (voted-perm true v q).1),
)
