-- ===== src/Idutil/Uniqueness.antt =====
-- The ids of pkg/idutil/id.go: which member made them, and that they differ.
use Prim.Native.Nat.{bit_or}
use etcd_cr.Common.{
  ℕ, zero, suc, ◌+◌, ◌*◌, ◌/◌, ◌%◌, ◌≤◌, ◌<◌, ◌≡◌, ◌≢◌, refl, ap₂, ◌∙◌, arith, ne→==_false, true,
  false, ◌||◌, u64_mod, add64,
}
use etcd_cr.Common.Maps.{has, Distinct}
use etcd_cr.Common.Bits.{bit_and_mask, bit_or_low}
use etcd_cr.Idutil.{suffix_span, Generator, lowbit, new_generator, next, next_ids}

-- The generator of a member: the prefix has no digit of a suffix.
pub record IsGenerator (member : ℕ) (g : Generator) : Type 0 where
  pub prefix : g.prefix ≡ member * suffix_span
  pub suffix_bound : g.suffix < u64_mod

lowbit_suffix : (x : ℕ) → lowbit x 48 ≡ x % suffix_span
unfolding lowbit
lowbit_suffix x = bit_and_mask 48 x

pub next_id :
    (member : ℕ) (g : Generator)
    → IsGenerator member g
    → (next g).0 ≡ member * suffix_span + (g.suffix + 1) % suffix_span
unfolding next add64
next_id member g w =
    let low : lowbit (add64 g.suffix 1) 48 ≡ (g.suffix + 1) % suffix_span =
      omega (arith, lowbit_suffix (add64 g.suffix 1)) in
    ap₂ bit_or w.prefix low ∙ bit_or_low 48 member ((g.suffix + 1) % suffix_span) (omega arith)

-- `NewGenerator` and `Next`: an id holds the member in its high sixteen bits.
pub next-IsGenerator :
    (member : ℕ) (g : Generator) → IsGenerator member g → IsGenerator member (next g).1
unfolding next add64
next-IsGenerator member g w = record { prefix = w.prefix; suffix_bound = omega arith }

pub new_generator-IsGenerator :
    (member unix_nano : ℕ) → member < 65536 → IsGenerator member (new_generator member unix_nano)
unfolding new_generator
new_generator-IsGenerator member unix_nano h = record {
  prefix = omega arith;
  suffix_bound = omega arith;
}

pub next_suffix : (g : Generator) → (next g).1.suffix ≡ (g.suffix + 1) % u64_mod
unfolding next add64
next_suffix g = refl

-- An id from `d` calls ago is not among the next `n`.
has-next_ids :
    (n d : ℕ) (member id s : ℕ) (g : Generator)
    → IsGenerator member g
    → id ≡ member * suffix_span + s % suffix_span
    → g.suffix ≡ (s + d) % u64_mod
    → n + d < suffix_span
    → has id (next_ids n g) ≡ false
unfolding next_ids
has-next_ids zero d member id s g w e f h = refl
has-next_ids (suc n) d member id s g w e f h =
    let rest =
      has-next_ids n (d + 1) member id s (next g).1 (next-IsGenerator member g w) e
        (omega (arith, next_suffix g)) (omega arith) in
    let differs : (next g).0 ≢ id = λ same. omega (arith, same, next_id member g w) in
    ap₂ ◌||◌ (ne→==_false (next g).0 id differs) rest

next_ids-Distinct :
    (n member : ℕ) (g : Generator)
    → IsGenerator member g
    → n ≤ suffix_span
    → Distinct (next_ids n g)
unfolding next_ids
next_ids-Distinct zero member g w h = tt
next_ids-Distinct (suc n) member g w h = (
  has-next_ids n 0 member (next g).0 (g.suffix + 1) (next g).1 (next-IsGenerator member g w)
      (next_id member g w) (omega (arith, next_suffix g)) (omega arith),
  next_ids-Distinct n member (next g).1 (next-IsGenerator member g w) (omega arith),
)

next_ids-member :
    (n member id : ℕ) (g : Generator)
    → IsGenerator member g
    → has id (next_ids n g) ≡ true
    → id / suffix_span ≡ member
unfolding next_ids
next_ids-member zero member id g w h = cc
next_ids-member (suc n) member id g w h =
    let first : (next g).0 ≡ id → id / suffix_span ≡ member =
      λ same. omega (arith, same, next_id member g w) in
    ground (arith, next_ids-member n member id (next g).1 (next-IsGenerator member g w), first)

-- The ids of up to 2^48 calls of `Next` on one `Generator` are distinct, and each has the 16-bit
-- id of its member in its high 16 bits, so that the generators of two members never share an id.
pub new_generator_unique :
    (n member unix_nano : ℕ)
    → member < 65536
    → n ≤ suffix_span
    → Distinct (next_ids n (new_generator member unix_nano))
      × ((id : ℕ)
          → has id (next_ids n (new_generator member unix_nano)) ≡ true
          → id / suffix_span ≡ member)
new_generator_unique n member unix_nano small few =
    let w = new_generator-IsGenerator member unix_nano small in
    (
      next_ids-Distinct n member (new_generator member unix_nano) w few,
      λ id h. next_ids-member n member id (new_generator member unix_nano) w h,
    )
