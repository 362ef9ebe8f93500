-- ===== src/Etcdserver/Timeouts.antt =====
-- The durations of etcdserver/config.go, in nanoseconds, `checkDuplicateURL`, and `adjustTicks` of
-- etcdserver/server.go, of a server that has a raft node.
use etcd_cr.Common.{
  ℕ, ◌+◌, ◌-◌, ◌*◌, ◌≤◌, ◌≡◌, ap, ◌∙◌, Bool, true, false, List, [], ◌∷◌, length, ◌==◌,
  if◌then◌else◌, arith,
}
use etcd_cr.Types.UrlsMap.{Bytes}
use etcd_cr.Types.Urls.{Url}
use etcd_cr.Flags.{contains}
use etcd_cr.Membership.{RaftCluster, members_by_id}
use etcd_cr.Node.{Node}
use etcd_cr.Node.Ticks.{advance_ticks, advance_ticks-tickc}

-- `ReqTimeout`
unfoldable req_timeout : (election_ticks tick_ms : ℕ) → ℕ
req_timeout election_ticks tick_ms = 5 * 1000000000 + 2 * (election_ticks * tick_ms) * 1000000

-- `electionTimeout`
unfoldable election_timeout : (election_ticks tick_ms : ℕ) → ℕ
election_timeout election_ticks tick_ms = election_ticks * tick_ms * 1000000

-- `peerDialTimeout`
unfoldable peer_dial_timeout : (election_ticks tick_ms : ℕ) → ℕ
peer_dial_timeout election_ticks tick_ms = 1000000000 + election_ticks * tick_ms * 1000000

-- `bootstrapTimeout`
unfoldable bootstrap_timeout : ℕ → ℕ
bootstrap_timeout given = if given == 0 then 1000000000 else given

-- The inner loop of `checkDuplicateURL`: whether a text is among those seen, and those seen after it.
unfoldable check_urls_of : List Url → List Bytes → Bool × List Bytes
check_urls_of [] seen = (false, seen)
check_urls_of (u ∷ us) seen =
    let rest = check_urls_of us (u.text ∷ seen) in
    if contains u.text seen then (true, seen) else rest

-- `checkDuplicateURL`, over the entries of the map in the order of the run.
unfoldable check_duplicate_url : List (Bytes × List Url) → Bool
check_duplicate_url urlsmap = from [] urlsmap
  where
    from : List Bytes → List (Bytes × List Url) → Bool
    from seen [] = false
    from seen ((name, urls) ∷ rest) =
        let round = check_urls_of urls seen in
        let later = from round.1 rest in if round.0 then true else later

module _ {S G : Type 0} where
  -- `adjustTicks`; a duration of ticks below zero advances none.
  unfoldable adjust_ticks : ℕ → RaftCluster → Node S G → Node S G
  adjust_ticks election_ticks cl n =
      if length (members_by_id cl) == 1 then advance_ticks (election_ticks - 1) n else n

  -- The only member of a cluster starts with all but one of its election ticks in the buffer of its
  -- node, if they fit in.
  adjust_ticks-single :
      (election_ticks : ℕ) (cl : RaftCluster) (n : Node S G)
      → (length (members_by_id cl) == 1) ≡ true
      → n.tickc ≡ 0
      → election_ticks ≤ 129
      → adjust_ticks election_ticks cl n ≡ record n { tickc = election_ticks - 1 }
  unfolding adjust_ticks
  adjust_ticks-single election_ticks cl n single empty few = rw (single) (
      advance_ticks-tickc (election_ticks - 1) n (omega arith)
      ∙ ap (λ k. record n { tickc = k }) (ground arith))
