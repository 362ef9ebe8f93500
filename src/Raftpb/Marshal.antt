-- ===== src/Raftpb/Marshal.antt =====
-- `(*ConfChange).Marshal`, `MarshalTo` and `Size`, and `encodeVarintRaft`, of raft/raftpb/raft.pb.go.
-- The fields for unrecognised wire data are left out, as they are from the messages.
use mathlib.Core.Logic.{dite}
use mathlib.Core.WellFounded.{Acc}
use native.Mathlib.Decide.{dec_lt}
use etcd_cr.Common.{
  ℕ, ◌+◌, ◌/◌, ◌%◌, ◌<◌, ◌≡◌, refl, Option, none, some, List, [], ◌∷◌, ◌++◌, length, length-append,
  arith,
}
use etcd_cr.Common.Order.{lt_wf}
use etcd_cr.Raftpb.{
  ConfChange, ConfChangeType, add_node, remove_node, update_node, add_learner_node,
}
use etcd_cr.Raftpb.Size.{shifted-below, sov_raft, sov_raft_acc, bytes_size}

pub div-below : (v : ℕ) → 127 < v → v / 128 < v
div-below v h = omega arith

unfoldable encode_varint_acc : (v : ℕ) → Acc ◌<◌ v → List ℕ
encode_varint_acc v (Acc.intro _ smaller) =
    dite (dec_lt 127 v)
      (λ h. (v % 128 + 128) ∷ encode_varint_acc (v / 128) (smaller (v / 128) (div-below v h)))
      (λ _. v ∷ [])

-- `encodeVarintRaft`: the bytes that it writes.
unfoldable pub encode_varint : ℕ → List ℕ
unfolding encode_varint_acc lt_wf dec_lt
encode_varint v = encode_varint_acc v (lt_wf.apply v)

abbrev conf_change_type_number : ConfChangeType → ℕ
conf_change_type_number add_node = 0
conf_change_type_number remove_node = 1
conf_change_type_number update_node = 2
conf_change_type_number add_learner_node = 3

abbrev marshal_bytes : Option (List ℕ) → List ℕ
marshal_bytes none = []
marshal_bytes (some d) = 34 ∷ (encode_varint (length d) ++ d)

-- `(*ConfChange).Marshal`
unfoldable pub marshal_conf_change : ConfChange → List ℕ
marshal_conf_change m =
    (8 ∷ encode_varint m.id)
    ++ ((16 ∷ encode_varint (conf_change_type_number m.type))
        ++ ((24 ∷ encode_varint m.node_id) ++ marshal_bytes m.context))

-- `(*ConfChange).Size`
unfoldable pub conf_change_size : ConfChange → ℕ
conf_change_size m =
    (1 + sov_raft m.id)
    + (1 + sov_raft (conf_change_type_number m.type))
    + (1 + sov_raft m.node_id)
    + bytes_size m.context

-- Both loops go on under the same condition.
same_rounds :
    (v : ℕ) (d : Dec (127 < v)) (d' : Dec (0 < v / 128)) (f : 127 < v → List ℕ) (b : ℕ)
    (g : 0 < v / 128 → ℕ)
    → ((h : 127 < v) (h' : 0 < v / 128) → length (f h) ≡ 1 + g h')
    → length (dite d f (λ _. b ∷ [])) ≡ 1 + dite d' g (λ _. 0)
same_rounds v (yes h) (yes h') f b g e = e h h'
same_rounds v (yes h) (no n) f b g e = absurd (n (omega arith))
same_rounds v (no n) (yes h') f b g e = absurd (n (omega arith))
same_rounds v (no n) (no n') f b g e = refl

length-encode_varint_acc :
    (v : ℕ) (a b : Acc ◌<◌ v) → length (encode_varint_acc v a) ≡ sov_raft_acc v b
unfolding encode_varint_acc sov_raft_acc
length-encode_varint_acc v (Acc.intro _ a) (Acc.intro _ b) =
    same_rounds v (dec_lt 127 v) (dec_lt 0 (v / 128)) _ v
      (λ h'. sov_raft_acc (v / 128) (b (v / 128) (shifted-below v h')))
      (λ h h'. omega (
        arith,
        length-encode_varint_acc (v / 128) (a (v / 128) (div-below v h))
            (b (v / 128) (shifted-below v h')),
      ))

-- `encodeVarintRaft` writes as many bytes as `sovRaft` counts.
length-encode_varint : (v : ℕ) → length (encode_varint v) ≡ sov_raft v
unfolding encode_varint sov_raft
length-encode_varint v = length-encode_varint_acc v (lt_wf.apply v) (lt_wf.apply v)

length-marshal_bytes : (d : Option (List ℕ)) → length (marshal_bytes d) ≡ bytes_size d
length-marshal_bytes none = refl
length-marshal_bytes (some d) =
    ground (arith, length-append (encode_varint (length d)) d, length-encode_varint (length d))

-- `MarshalTo` fills the buffer that `Marshal` makes of `Size` bytes, no more and no less.
pub length-marshal_conf_change :
    (c : ConfChange) → length (marshal_conf_change c) ≡ conf_change_size c
unfolding marshal_conf_change conf_change_size
length-marshal_conf_change c =
    let kind = conf_change_type_number c.type in
    let tail = marshal_bytes c.context in
    ground (
      arith,
      length-append (8 ∷ encode_varint c.id)
          ((16 ∷ encode_varint kind) ++ ((24 ∷ encode_varint c.node_id) ++ tail)),
      length-append (16 ∷ encode_varint kind) ((24 ∷ encode_varint c.node_id) ++ tail),
      length-append (24 ∷ encode_varint c.node_id) tail,
      length-encode_varint c.id,
      length-encode_varint kind,
      length-encode_varint c.node_id,
      length-marshal_bytes c.context,
    )
