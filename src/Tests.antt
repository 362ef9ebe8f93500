-- ===== src/Tests.antt =====
-- Runs of the modelled code at small inputs, each by the theorem that covers it.
mod Stored
mod Logs
mod Votes
mod Members
mod Nodes
mod Starts
mod Requests
mod Waits
mod Clusters
mod Parts
use etcd_cr.Common.{ℕ, none}
use etcd_cr.Raftpb.{Entry, entry_normal}

abbrev pub entry : ℕ → ℕ → Entry
entry index term = record { term = term; index = index; type = entry_normal; bytes = none }
