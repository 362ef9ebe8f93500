-- ===== src/Lease/Positions.antt =====
-- The positions that the items of lease/lease_queue.go record.
use etcd_cr.Common.{
  ℕ, ◌-◌, ◌≤◌, ◌<◌, ◌≡◌, ◌≢◌, refl, sym, ap, ◌∙◌, none, some, [], ◌∷◌, ◌++◌, length, get_elem?,
  take, set, arith, ltb, ◌==◌, ok, length-append, length-set, get_elem?-set_same,
  get_elem?-set_other, get_elem?-append_left, get_elem?-append_right, get_elem?-take, get_elem?_lt,
  get_elem?-some, length-take, ne→==_false, Bool-cases, inl, inr, ==_iff,
}
use etcd_cr.Lease.{LeaseWithTime, LeaseQueue, at_index, swap, push, pop}

-- Each item records its place.
unfoldable pub IsIndexed : LeaseQueue → Type 0
IsIndexed pq = (k : ℕ) (x : LeaseWithTime) → get_elem? pq k ≡ some x → x.index ≡ some k

index_of-some :
    (k : ℕ) (x y : LeaseWithTime) → some x ≡ some y → x.index ≡ some k → y.index ≡ some k
index_of-some k x y e h = cc

push-IsIndexed : (item : LeaseWithTime) (pq : LeaseQueue) → IsIndexed pq → IsIndexed (push item pq)
unfolding IsIndexed push
push-IsIndexed item pq v k x h = elim (Bool-cases (ltb k (length pq))) [
  | inl below ↦
      v k x (sym (get_elem?-append_left k pq (at_index (length pq) item ∷ []) (ground arith)) ∙ h)
  | inr above ↦
      let new = at_index (length pq) item in
      let le : length pq ≤ k = ground arith in
      let last : k ≡ length pq =
        omega (arith, get_elem?-some k (pq ++ new ∷ []) h, length-append pq (new ∷ [])) in
      let z : k - length pq ≡ 0 = omega arith in
      let e : some new ≡ some x =
        sym (get_elem?-append_right k pq (new ∷ []) le ∙ ap (get_elem? (new ∷ [])) z) ∙ h in
      index_of-some k new x e (ap some (sym last))
]

-- What stands at a place after a swap.
placed :
    (pq : LeaseQueue) (i j k : ℕ) (a b x : LeaseWithTime)
    → i < length pq
    → j < length pq
    → IsIndexed pq
    → get_elem? (set j (at_index j a) (set i (at_index i b) pq)) k ≡ some x
    → x.index ≡ some k
unfolding IsIndexed
placed pq i j k a b x hi hj v h = elim (Bool-cases (j == k)) [
  | inl second ↦
      let e = (==_iff j k).0 second in
      let there =
        get_elem?-set_same j (at_index j a) (set i (at_index i b) pq)
          (omega (arith, length-set i (at_index i b) pq)) in
      index_of-some k (at_index j a) x
        (sym (ap (get_elem? (set j (at_index j a) (set i (at_index i b) pq))) (sym e) ∙ there) ∙ h)
        (ap some e)
  | inr not_second ↦
      let n : j ≢ k = λ e. ground arith in
      let below = get_elem?-set_other j k (at_index j a) (set i (at_index i b) pq) n in
      elim (Bool-cases (i == k)) [
        | inl first ↦
            let e = (==_iff i k).0 first in
            let there = get_elem?-set_same i (at_index i b) pq hi in
            index_of-some k (at_index i b) x
              (sym (ap (get_elem? (set i (at_index i b) pq)) (sym e) ∙ there) ∙ sym below ∙ h)
              (ap some e)
        | inr not_first ↦
            let m : i ≢ k = λ e. ground arith in
            v k x (sym (get_elem?-set_other i k (at_index i b) pq m) ∙ sym below ∙ h)
      ]
]

swap-IsIndexed :
    (pq : LeaseQueue) (i j : ℕ)
    → i < length pq
    → j < length pq
    → IsIndexed pq
    → (pq' : LeaseQueue) × (swap pq i j ≡ ok pq') × IsIndexed pq' × (length pq' ≡ length pq)
unfolding IsIndexed swap
swap-IsIndexed pq i j hi hj v =
    let (a, ea) = get_elem?_lt i pq hi in
    let (b, eb) = get_elem?_lt j pq hj in
    (
      set j (at_index j a) (set i (at_index i b) pq),
      rw (ea, swap, eb) refl,
      λ k x h. placed pq i j k a b x hi hj v h,
      length-set j (at_index j a) (set i (at_index i b) pq) ∙ length-set i (at_index i b) pq,
    )

pop-IsIndexed :
    (pq : LeaseQueue)
    → 0 < length pq
    → IsIndexed pq
    → (item : LeaseWithTime) × (pop pq ≡ ok (record item { index = none }, take (length pq - 1) pq))
      × (get_elem? pq (length pq - 1) ≡ some item)
      × IsIndexed (take (length pq - 1) pq)
unfolding IsIndexed pop
pop-IsIndexed pq some_item v =
    let (item, e) = get_elem?_lt (length pq - 1) pq (omega arith) in
    (
      item,
      rw (ne→==_false (length pq) 0 (λ e. omega (arith, e)), pop, e) refl,
      e,
      λ k x h.
          let below = get_elem?-some k (take (length pq - 1) pq) h in
          v k x (
            sym
              (get_elem?-take (length pq - 1) k pq (omega (arith, length-take (length pq - 1) pq)))
            ∙ h),
    )

-- Each item of a queue that is not empty records its place, and all operations that change the queue
-- keep it so: `Push`, `Swap` of two places in range, which keeps the length, and `Pop`, which takes
-- the last item out and marks it as in no place.
pub queue-IsIndexed :
    (item : LeaseWithTime) (pq : LeaseQueue) (i j : ℕ)
    → IsIndexed pq
    → i < length pq
    → j < length pq
    → IsIndexed (push item pq)
      × ((pq' : LeaseQueue) × (swap pq i j ≡ ok pq') × IsIndexed pq' × (length pq' ≡ length pq))
      × ((end : LeaseWithTime) × (pop pq
            ≡ ok (record end { index = none }, take (length pq - 1) pq))
          × (get_elem? pq (length pq - 1) ≡ some end)
          × IsIndexed (take (length pq - 1) pq))
queue-IsIndexed item pq i j v hi hj =
    (push-IsIndexed item pq v, swap-IsIndexed pq i j hi hj v, pop-IsIndexed pq (omega arith) v)
