-- ===== src/Util.antt =====
-- raft/util.go: minimum and maximum, the response type of a vote message, and `limitSize`.
pub mod Laws
use etcd_cr.Common.{
  ℕ, zero, suc, ◌+◌, ◌^◌, ◌-◌, Bool, true, false, List, [], ◌∷◌, ltb, if◌then◌else◌, Result, ok,
  panic,
}
use etcd_cr.Raftpb.{MessageType, msg_vote, msg_vote_resp, msg_pre_vote, msg_pre_vote_resp, Entry}
use etcd_cr.Raftpb.Size.{entry_size}

-- `noLimit`, the largest `uint64`.
abbrev pub no_limit : ℕ
no_limit = 2 ^ 64 - 1

abbrev pub min : ℕ → ℕ → ℕ
min a b = if ltb b a then b else a

abbrev pub max : ℕ → ℕ → ℕ
max a b = if ltb b a then a else b

unfoldable pub vote_resp_msg_type : MessageType → Result MessageType
vote_resp_msg_type msg_vote = ok msg_vote_resp
vote_resp_msg_type msg_pre_vote = ok msg_pre_vote_resp
vote_resp_msg_type _ = panic

-- The loop of `limitSize` after the first entry: `size` counts the entries kept so far.
unfoldable pub limit_from : ℕ → ℕ → List Entry → List Entry
limit_from max_size size [] = []
limit_from max_size size (e ∷ es) =
    let rest = e ∷ limit_from max_size (size + entry_size e) es in
    if ltb max_size (size + entry_size e) then [] else rest

-- `limitSize`
unfoldable pub limit_size : List Entry → ℕ → List Entry
unfolding limit_from
limit_size [] max_size = []
limit_size (e ∷ es) max_size = e ∷ limit_from max_size (entry_size e) es
