-- ===== src/Util/Laws.antt =====
-- What `limitSize` keeps.
use etcd_cr.Common.{
  ℕ, ◌+◌, ◌≤◌, ◌<◌, ◌≡◌, refl, ap, ◌⊎◌, inl, inr, List, [], ◌∷◌, ◌++◌, arith, ltb, length,
  length-append, Bool-cases, ltb→lt,
}
use etcd_cr.Raftpb.{Entry}
use etcd_cr.Raftpb.Size.{entry_size}
use Prim.Native.Nat.{min as nat_min}
use etcd_cr.Util.{limit_from, limit_size, min}

-- The encoded size of a list of entries.
abbrev pub total_size : List Entry → ℕ
total_size [] = 0
total_size (e ∷ es) = entry_size e + total_size es

-- What is left of `es` after `out`, with why it stopped there.
pub record Rest (max_size size : ℕ) (es out : List Entry) : Type 0 where
  pub rest : List Entry
  pub split : es ≡ out ++ rest
  pub fits : (out ≡ []) ⊎ (size + total_size out ≤ max_size)
  pub full :
      (rest ≡ [])
      ⊎ ((e : Entry) × (r : List Entry) × (rest ≡ e ∷ r)
          × (max_size < size + total_size out + entry_size e))

limit_from-Rest :
    (max_size size : ℕ) (es : List Entry) → Rest max_size size es (limit_from max_size size es)
unfolding limit_from
limit_from-Rest m s [] = record { rest = []; split = refl; fits = inl refl; full = inl refl }
limit_from-Rest m s (e ∷ es) = elim (Bool-cases (ltb m (s + entry_size e))) [
  | inl over ↦ rw over (record {
    rest = e ∷ es;
    split = refl;
    fits = inl refl;
    full = inr (e, es, refl, omega (arith, ltb→lt m (s + entry_size e) over));
  })
  | inr under ↦ rw under (
      let r = limit_from-Rest m (s + entry_size e) es in
      record {
        rest = r.rest;
        split = ap (◌∷◌ e) r.split;
        fits = ground (arith, r.fits);
        full = ground (arith, r.full);
      })
]

-- `limitSize` returns the longest prefix of the entries whose encoded size is within `max_size`,
-- but at least one entry where there is any: the result followed by some rest is the input, a
-- result of two or more entries is within the limit, and the entry after the result would go over.
pub limit_size-Longest :
    (e : Entry) (es : List Entry) (max_size : ℕ)
    → (rest : List Entry) × (e ∷ es ≡ limit_size (e ∷ es) max_size ++ rest)
      × (1 ≤ length (limit_size (e ∷ es) max_size))
      × ((length (limit_size (e ∷ es) max_size) ≡ 1)
          ⊎ (total_size (limit_size (e ∷ es) max_size) ≤ max_size))
      × ((rest ≡ [])
          ⊎ ((x : Entry) × (r : List Entry) × (rest ≡ x ∷ r)
              × (max_size < total_size (limit_size (e ∷ es) max_size) + entry_size x)))
unfolding limit_size
limit_size-Longest e es m =
    let r = limit_from-Rest m (entry_size e) es in
    (r.rest, ap (◌∷◌ e) r.split, omega arith, ground (arith, r.fits), r.full)

limit_from-append :
    (m s : ℕ) (xs ys : List Entry)
    → length (limit_from m s xs) < length xs
    → limit_from m s (xs ++ ys) ≡ limit_from m s xs
unfolding limit_from
limit_from-append m s [] ys h = absurd (omega arith)
limit_from-append m s (x ∷ xs) ys h = ground (arith, limit_from-append m (s + entry_size x) xs ys)

-- A limit that cuts a list short cuts every longer list at the same place.
pub limit_size-append :
    (xs ys : List Entry) (m : ℕ)
    → length (limit_size xs m) < length xs
    → limit_size (xs ++ ys) m ≡ limit_size xs m
unfolding limit_size
limit_size-append [] ys m h = absurd (omega arith)
limit_size-append (x ∷ xs) ys m h =
    ap (◌∷◌ x) (limit_from-append m (entry_size x) xs ys (omega arith))

limit_from_full :
    (m s : ℕ) (xs : List Entry) → length xs ≤ length (limit_from m s xs) → limit_from m s xs ≡ xs
unfolding limit_from
limit_from_full m s [] h = refl
limit_from_full m s (x ∷ xs) h = ground (arith, limit_from_full m (s + entry_size x) xs)

-- A result as long as the input is the input.
pub limit_size_full :
    (xs : List Entry) (m : ℕ) → length xs ≤ length (limit_size xs m) → limit_size xs m ≡ xs
unfolding limit_size
limit_size_full [] m h = refl
limit_size_full (x ∷ xs) m h = ap (◌∷◌ x) (limit_from_full m (entry_size x) xs (omega arith))

pub length-limit_size-le : (xs : List Entry) (m : ℕ) → length (limit_size xs m) ≤ length xs
unfolding limit_size
length-limit_size-le [] m = omega arith
length-limit_size-le (x ∷ xs) m =
    let r = limit_from-Rest m (entry_size x) xs in
    omega (arith, ap length r.split, length-append (limit_from m (entry_size x) xs) r.rest)

pub limit_size-nil : (m : ℕ) → limit_size [] m ≡ []
unfolding limit_size
limit_size-nil m = refl

pub min_lem : (a b : ℕ) → min a b ≡ nat_min a b
min_lem a b = ground arith
