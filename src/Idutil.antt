-- ===== src/Idutil.antt =====
-- pkg/idutil/id.go: the generator of request ids.
pub mod Uniqueness
use Prim.Native.Nat.{bit_and, bit_or}
use etcd_cr.Common.{ℕ, zero, suc, ◌+◌, ◌-◌, ◌*◌, ◌/◌, ◌%◌, ◌^◌, List, [], ◌∷◌, add64, u64_mod}

-- `tsLen`, `cntLen` and `suffixLen`
abbrev pub ts_len : ℕ
ts_len = 5 * 8

abbrev pub cnt_len : ℕ
cnt_len = 8

abbrev pub suffix_len : ℕ
suffix_len = ts_len + cnt_len

-- The number of suffixes.
abbrev pub suffix_span : ℕ
suffix_span = 2 ^ suffix_len

pub record Generator : Type 0 where
  pub prefix : ℕ
  pub suffix : ℕ

-- `x << n` of a `uint64`
abbrev pub shift_left : ℕ → ℕ → ℕ
shift_left x n = x * 2 ^ n % u64_mod

-- `lowbit`
unfoldable pub lowbit : ℕ → ℕ → ℕ
lowbit x n = bit_and x ((u64_mod - 1) / 2 ^ (64 - n))

-- `NewGenerator`, with `uint64(now.UnixNano())` for the time.
unfoldable pub new_generator : ℕ → ℕ → Generator
new_generator member_id unix_nano = record {
  prefix = shift_left member_id suffix_len;
  suffix = shift_left (lowbit (unix_nano / 1000000) ts_len) cnt_len;
}

-- `Next`, whose addition is atomic.
unfoldable pub next : Generator → ℕ × Generator
next g =
    let suffix = add64 g.suffix 1 in
    (bit_or g.prefix (lowbit suffix suffix_len), record g { suffix = suffix })

-- The ids of `n` calls.
unfoldable pub next_ids : ℕ → Generator → List ℕ
next_ids zero g = []
next_ids (suc n) g = (next g).0 ∷ next_ids n (next g).1
