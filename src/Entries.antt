-- ===== src/Entries.antt =====
-- Lists of log entries with consecutive indices, and the update that both the storage and the
-- raft log make: cut the log where the new entries begin and append them.
use etcd_cr.Common.{
  ℕ, zero, suc, ◌+◌, ◌-◌, ◌≤◌, ◌<◌, ◌≡◌, refl, subst, List, [], ◌∷◌, ◌++◌, some, arith, length, min,
  ap, ◌∙◌, append-nil, take-append, take-take, length-append, length-take, length-drop, take, drop,
  get_elem?,
}
use etcd_cr.Raftpb.{Entry}

-- The entries have the indices `i`, `i + 1`, and so on.
abbrev pub Consecutive : ℕ → List Entry → Type 0
Consecutive i [] = Unit
Consecutive i (e ∷ es) = (e.index ≡ i) × Consecutive (suc i) es

pub Consecutive-append :
    (i j : ℕ) (xs ys : List Entry)
    → i + length xs ≡ j
    → Consecutive i xs
    → Consecutive j ys
    → Consecutive i (xs ++ ys)
Consecutive-append i j [] ys e p q =
    let e' : j ≡ i = omega arith in subst (λ k. Consecutive k ys) e' q
Consecutive-append i j (x ∷ xs) ys e p q =
    (p.0, Consecutive-append (suc i) j xs ys (omega arith) p.1 q)

pub Consecutive-take : (i n : ℕ) (xs : List Entry) → Consecutive i xs → Consecutive i (take n xs)
Consecutive-take i zero xs p = tt
Consecutive-take i (suc n) [] p = tt
Consecutive-take i (suc n) (x ∷ xs) p = (p.0, Consecutive-take (suc i) n xs p.1)

pub Consecutive-drop :
    (i j n : ℕ) (xs : List Entry) → i + n ≡ j → Consecutive i xs → Consecutive j (drop n xs)
Consecutive-drop i j zero xs e p =
    let e' : i ≡ j = omega arith in subst (λ k. Consecutive k xs) e' p
Consecutive-drop i j (suc n) [] e p = tt
Consecutive-drop i j (suc n) (x ∷ xs) e p = Consecutive-drop (suc i) j n xs (omega arith) p.1

index_at :
    (i k : ℕ) (xs : List Entry) {e : Entry}
    → Consecutive i xs
    → get_elem? xs k ≡ some e
    → e.index ≡ i + k
index_at i k [] p h = cc
index_at i zero (x ∷ xs) p h = ground arith
index_at i (suc k) (x ∷ xs) p h = omega (arith, index_at (suc i) k xs p.1 h)

-- The log above index `base` after entries that begin at index `first` are written over it:
-- what they follow is kept, what of them lies at or below `base` is left out.
abbrev pub overwrite : ℕ → List Entry → ℕ → List Entry → List Entry
overwrite base log first es = take (first - suc base) log ++ drop (suc base - first) es

pub length-overwrite :
    (base : ℕ) (log : List Entry) (first : ℕ) (es : List Entry)
    → first ≤ suc base + length log
    → base < first + length es
    → base + length (overwrite base log first es) + 1 ≡ first + length es
length-overwrite base log first es h k = omega (
  arith,
  length-append (take (first - suc base) log) (drop (suc base - first) es),
  length-take (first - suc base) log,
  length-drop (suc base - first) es,
)

pub Consecutive-overwrite :
    (base : ℕ) (log : List Entry) (first : ℕ) (es : List Entry)
    → first ≤ suc base + length log
    → base < first + length es
    → Consecutive (suc base) log
    → Consecutive first es
    → Consecutive (suc base) (overwrite base log first es)
Consecutive-overwrite base log first es h k p q =
    Consecutive-append (suc base) (first + (suc base - first)) (take (first - suc base) log)
      (drop (suc base - first) es) (omega (arith, length-take (first - suc base) log))
      (Consecutive-take (suc base) (first - suc base) log p)
      (Consecutive-drop first (first + (suc base - first)) (suc base - first) es refl q)

pub entry_at :
    (i k : ℕ) (xs : List Entry)
    → Consecutive i xs
    → k < length xs
    → (e : Entry) × (get_elem? xs k ≡ some e) × (e.index ≡ i + k)
entry_at i k [] p h = absurd (omega arith)
entry_at i zero (x ∷ xs) p h = (x, refl, omega arith)
entry_at i (suc k) (x ∷ xs) p h =
    let (e, g, q) = entry_at (suc i) k xs p.1 (omega arith) in (e, g, omega arith)

-- What lies below the first new index stays.
pub take-overwrite :
    (base : ℕ) (log : List Entry) (first : ℕ) (es : List Entry) (n : ℕ)
    → suc base + n ≤ first
    → first ≤ suc base + length log
    → take n (overwrite base log first es) ≡ take n log
take-overwrite base log first es n p q =
    let m = first - suc base in
    let rest = drop (suc base - first) es in
    let none_left : n - length (take m log) ≡ 0 = omega (arith, length-take m log) in
    let same : min n m ≡ n = omega arith in
    take-append n (take m log) rest
    ∙ ap (λ k. take n (take m log) ++ take k rest) none_left
    ∙ append-nil (take n (take m log))
    ∙ take-take n m log
    ∙ ap (λ k. take k log) same
