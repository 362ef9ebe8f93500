-- ===== src/Quorum/Sorting.antt =====
-- `(MajorityConfig).Slice` lists the members in ascending order.
use etcd_cr.Common.{ℕ, ◌≤◌, ◌≡◌, refl, ◌||◌, List, [], ◌∷◌, arith, ◌==◌}
use etcd_cr.Common.Maps.{IdSet, ids, has}
use etcd_cr.Quorum.{insert_sorted, sort_ids, majority_slice}

-- `id` is at most the first of the list.
abbrev pub AtMost : ℕ → List ℕ → Type 0
AtMost id [] = Unit
AtMost id (x ∷ xs) = id ≤ x

abbrev pub IsAscending : List ℕ → Type 0
IsAscending [] = Unit
IsAscending (x ∷ xs) = AtMost x xs × IsAscending xs

insert_sorted-IsAscending :
    (id : ℕ) (xs : List ℕ) → IsAscending xs → IsAscending (insert_sorted id xs)
insert_sorted-IsAscending id [] s = (tt, tt)
insert_sorted-IsAscending id (x ∷ []) s = ground arith
insert_sorted-IsAscending id (x ∷ y ∷ xs) s =
    ground (arith, insert_sorted-IsAscending id (y ∷ xs) s.1)

has-insert_sorted : (id j : ℕ) (xs : List ℕ) → has j (insert_sorted id xs) ≡ (id == j || has j xs)
has-insert_sorted id j [] = refl
has-insert_sorted id j (x ∷ xs) = ground (arith, has-insert_sorted id j xs)

pub sort_ids_lem :
    (xs : List ℕ) → IsAscending (sort_ids xs) × ((j : ℕ) → has j (sort_ids xs) ≡ has j xs)
unfolding sort_ids
sort_ids_lem [] = (tt, λ j. refl)
sort_ids_lem (x ∷ xs) = (
  insert_sorted-IsAscending x (sort_ids xs) (sort_ids_lem xs).0,
  λ j. ground (arith, has-insert_sorted x j (sort_ids xs), (sort_ids_lem xs).1 j),
)

-- `Slice` returns the members of the configuration, and no others, in ascending order.
majority_slice-IsAscending :
    (c : IdSet) (j : ℕ)
    → IsAscending (majority_slice c) × (has j (majority_slice c) ≡ has j (ids c))
unfolding majority_slice
majority_slice-IsAscending c j = ((sort_ids_lem (ids c)).0, (sort_ids_lem (ids c)).1 j)
