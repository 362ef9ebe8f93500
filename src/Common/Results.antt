-- ===== src/Common/Results.antt =====
-- The result of a Go call: its values, a non-nil error, or a panic. Log lines are left out.
use Prim.Native.Nat.{ℕ}
use mathlib.Core.Path.{◌≡◌, refl}
use mathlib.Core.Option.{Option, none, some}
use mathlib.Core.Bool.{Bool, true, false, ◌&&◌}
use mathlib.Core.List.{List}
use etcd_cr.Common.Tests.{leb, if◌then◌else◌}
use etcd_cr.Common.Lists.{length, segment}

-- The error values that the modelled packages create, by their messages.
pub data Error : Type 0 where
  compacted snap_out_of_date unavailable snapshot_temporarily_unavailable : Error
  none_as_id no_peers nonempty_storage : Error
  in_joint_config removed_all_voters many_voters_changed unexpected_conf_type : Error
  no_progress staged_not_outgoing staged_is_learner : ℕ → Error
  learner_in_outgoing learner_in_incoming learner_not_marked : ℕ → Error
  empty_key value_provided lease_provided : Error
  too_many_requests request_too_large canceled timeout timeout_due_to_leader_fail stopped : Error
  no_valid_urls bad_scheme no_host_port url_has_path invalid_value : Error
  invalid_syntax value_out_of_range : Error
  member_exists : ℕ → Error
  none_member no_local_member : Error
  outgoing_not_nil learners_next_not_nil auto_leave_set : Error

pub data Result {ℓ} (A : Type ℓ) : Type ℓ where
  ok : A → Result A
  err : Error → Result A
  panic : Result A

-- The next call runs only after the last one went well.
infixl 5 ◌>>=◌
abbrev pub ◌>>=◌ {ℓ κ} : {A : Type ℓ} {B : Type κ} → Result A → (A → Result B) → Result B
panic >>= next = panic
err e >>= next = err e
ok value >>= next = next value

infixl 5 ◌>>◌
abbrev pub ◌>>◌ {κ} : {B : Type κ} → Result (Unit {0}) → Result B → Result B
first >> second = first >>= λ _. second

-- An index out of range panics.
abbrev pub or_panic {ℓ} : {A : Type ℓ} → Option A → Result A
or_panic none = panic
or_panic (some a) = ok a

-- `if err != nil { panic(err) }`
abbrev pub must {ℓ} : {A : Type ℓ} → Result A → Result A
must (ok a) = ok a
must (err e) = panic
must panic = panic

-- `if !b { panic }`
abbrev pub assert : Bool → Result (Unit {0})
assert true = ok tt
assert false = panic

-- `xs[lo:hi]`; bounds out of order or past the length panic.
abbrev pub slice {ℓ} : {A : Type ℓ} → List A → ℕ → ℕ → Result (List A)
slice xs lo hi = if leb lo hi && leb hi (length xs) then ok (segment lo hi xs) else panic

pub ok_injective {ℓ} : {A : Type ℓ} {a b : A} → ok a ≡ ok b → a ≡ b
ok_injective h = cc

-- A chain that ends well went well up to there.
pub bind_ok {ℓ κ} :
    {A : Type ℓ} {B : Type κ} (call : Result A) (next : A → Result B) (last : B)
    → call >>= next ≡ ok last
    → (value : A) × (call ≡ ok value) × (next value ≡ ok last)
bind_ok (ok value) next last went = (value, refl, went)
bind_ok (err e) next last went = cc
bind_ok panic next last went = cc
