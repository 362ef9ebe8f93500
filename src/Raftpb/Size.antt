-- ===== src/Raftpb/Size.antt =====
-- The encoded size of an entry: `(*Entry).Size` and `sovRaft` of raft/raftpb/raft.pb.go.
use mathlib.Core.Logic.{dite}
use mathlib.Core.WellFounded.{Acc}
use native.Mathlib.Decide.{dec_lt}
use etcd_cr.Common.{ℕ, ◌+◌, ◌/◌, ◌<◌, Option, none, some, List, length, arith}
use etcd_cr.Common.Order.{lt_wf}
use etcd_cr.Raftpb.{EntryType, entry_normal, entry_conf_change, entry_conf_change_v2, Entry}

pub shifted-below : (x : ℕ) → 0 < x / 128 → x / 128 < x
shifted-below x h = omega arith

-- The rounds of the loop `n++; x >>= 7; if x == 0 { break }`.
unfoldable pub sov_raft_acc : (x : ℕ) → Acc ◌<◌ x → ℕ
sov_raft_acc x (Acc.intro _ smaller) =
    1
    + dite (dec_lt 0 (x / 128))
        (λ h. sov_raft_acc (x / 128) (smaller (x / 128) (shifted-below x h))) (λ _. 0)

-- `sovRaft`: the bytes of a variable-length integer.
unfoldable pub sov_raft : ℕ → ℕ
unfolding sov_raft_acc lt_wf dec_lt
sov_raft x = sov_raft_acc x (lt_wf.apply x)

abbrev entry_type_number : EntryType → ℕ
entry_type_number entry_normal = 0
entry_type_number entry_conf_change = 1
entry_type_number entry_conf_change_v2 = 2

abbrev pub bytes_size : Option (List ℕ) → ℕ
bytes_size none = 0
bytes_size (some d) = 1 + length d + sov_raft (length d)

-- `(*Entry).Size`
unfoldable pub entry_size : Entry → ℕ
unfolding sov_raft
entry_size m =
    1
    + sov_raft (entry_type_number m.type)
    + (1 + sov_raft m.term)
    + (1 + sov_raft m.index)
    + bytes_size m.bytes
