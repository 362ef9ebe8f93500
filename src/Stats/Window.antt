-- ===== src/Stats/Window.antt =====
-- The ring of etcdserver/api/v2stats/queue.go holds the last 200 requests.
use etcd_cr.Common.{
  ℕ, suc, ◌+◌, ◌-◌, ◌%◌, ◌≤◌, ◌<◌, ◌≡◌, ◌≢◌, refl, sym, ap, ◌∙◌, Bool, true, false, some, List, [],
  ◌∷◌, ◌++◌, arith, length, length-append, get_elem?, get_elem?-append_left, get_elem?-append_right,
  ◌==◌, if◌then◌else◌, ok, ne→==_false, Bool-cases, inl, inr, ==_iff, drop,
}
use etcd_cr.Stats.{RequestStats, StatsQueue, next_place, put, new_queue, insert, clear}

abbrev pub total : List RequestStats → ℕ
total [] = 0
total (p ∷ ps) = p.size + total ps

-- The queue holds the requests of the list, the oldest first.
pub record Holds (q : StatsQueue) (w : List RequestStats) : Type 0 where
  pub size : q.size ≡ length w
  pub bound : q.size ≤ 200
  pub front_bound : q.front < 200
  pub next : next_place q.back ≡ (q.front + q.size) % 200
  pub item : (i : ℕ) → i < q.size → q.items ((q.front + i) % 200) ≡ get_elem? w i
  pub sum : q.total_req_size ≡ total w

-- The last 200 requests.
abbrev pub window : List RequestStats → RequestStats → List RequestStats
window w p = if length w == 200 then drop 1 w ++ p ∷ [] else w ++ p ∷ []

total-append : (w : List RequestStats) (p : RequestStats) → total (w ++ p ∷ []) ≡ total w + p.size
total-append [] p = omega arith
total-append (x ∷ w) p = omega (arith, total-append w p)

pub Holds-new : Holds new_queue []
unfolding new_queue next_place
Holds-new = record {
  size = refl;
  bound = omega arith;
  front_bound = omega arith;
  next = refl;
  item = λ i h. absurd (omega arith);
  sum = refl;
}

module _ (p : RequestStats) (q : StatsQueue) where
  grown : StatsQueue
  grown = record q {
    size = q.size + 1;
    items = put (next_place q.back) p q.items;
    back = some (next_place q.back);
    total_req_size = q.total_req_size + p.size;
  }

  -- The ring with one request in place of the oldest.
  turned : RequestStats → StatsQueue
  turned oldest = record q {
    front = (next_place q.back + 1) % 200;
    items = put (next_place q.back) p q.items;
    back = some (next_place q.back);
    total_req_size = q.total_req_size - oldest.size + p.size;
  }

  insert-grown : (q.size == 200) ≡ false → insert p q ≡ ok grown
  unfolding insert grown
  insert-grown h = rw (h, insert) refl

  insert-turned :
      (oldest : RequestStats)
      → (q.size == 200) ≡ true
      → q.items q.front ≡ some oldest
      → insert p q ≡ ok (turned oldest)
  unfolding insert turned
  insert-turned oldest h e = rw (h, insert, e) refl

  put_same : (i : ℕ) → i ≡ next_place q.back → put (next_place q.back) p q.items i ≡ some p
  put_same i e = ground arith

  put_other : (i : ℕ) → i ≢ next_place q.back → put (next_place q.back) p q.items i ≡ q.items i
  put_other i n = ground arith

  item-grown :
      (w : List RequestStats) (i : ℕ)
      → Holds q w
      → q.size < 200
      → i < q.size + 1
      → put (next_place q.back) p q.items ((q.front + i) % 200) ≡ get_elem? (w ++ p ∷ []) i
  item-grown w i h room lt = elim (Bool-cases (i == q.size)) [
    | inl last ↦
        let e : i ≡ q.size = (==_iff i q.size).0 last in
        let z : i - length w ≡ 0 = omega (arith, h.size) in
        put_same ((q.front + i) % 200) (ap (λ k. (q.front + k) % 200) e ∙ sym h.next)
        ∙ sym (
            get_elem?-append_right i w (p ∷ []) (omega (arith, h.size)) ∙ ap (get_elem? (p ∷ [])) z)
    | inr before ↦
        let lt' : i < q.size = ground arith in
        put_other ((q.front + i) % 200) (λ e. omega (arith, e, h.next))
        ∙ h.item i lt'
        ∙ sym (get_elem?-append_left i w (p ∷ []) (omega (arith, h.size)))
  ]

  item-turned :
      (x : RequestStats) (rest : List RequestStats) (i : ℕ)
      → Holds q (x ∷ rest)
      → q.size ≡ 200
      → i < 200
      → put (next_place q.back) p q.items (((next_place q.back + 1) % 200 + i) % 200)
        ≡ get_elem? (rest ++ p ∷ []) i
  item-turned x rest i h full lt = elim (Bool-cases (i == 199)) [
    | inl last ↦
        let e : i ≡ 199 = (==_iff i 199).0 last in
        let z : i - length rest ≡ 0 = omega (arith, h.size) in
        put_same (((next_place q.back + 1) % 200 + i) % 200) (omega (arith, h.next, h.front_bound))
        ∙ sym (
            get_elem?-append_right i rest (p ∷ []) (omega (arith, h.size))
            ∙ ap (get_elem? (p ∷ [])) z)
    | inr before ↦
        let lt' : i < 199 = ground arith in
        let place : ((next_place q.back + 1) % 200 + i) % 200 ≡ (q.front + suc i) % 200 =
          omega (arith, h.next, h.front_bound) in
        put_other (((next_place q.back + 1) % 200 + i) % 200)
          (λ e. omega (arith, e, h.next, h.front_bound))
        ∙ ap q.items place
        ∙ h.item (suc i) (omega arith)
        ∙ sym (get_elem?-append_left i rest (p ∷ []) (omega (arith, h.size)))
  ]

  Holds-grown : (w : List RequestStats) → Holds q w → q.size < 200 → Holds grown (w ++ p ∷ [])
  unfolding grown next_place
  Holds-grown w h room = record {
    size = omega (arith, h.size, length-append w (p ∷ []));
    bound = omega arith;
    front_bound = h.front_bound;
    next = omega (arith, h.next);
    item = λ i lt. item-grown w i h room lt;
    sum = omega (arith, h.sum, total-append w p);
  }

  Holds-turned :
      (x : RequestStats) (rest : List RequestStats)
      → Holds q (x ∷ rest)
      → q.size ≡ 200
      → Holds (turned x) (rest ++ p ∷ [])
  unfolding turned next_place
  Holds-turned x rest h full = record {
    size = omega (arith, h.size, length-append rest (p ∷ []));
    bound = h.bound;
    front_bound = omega arith;
    next = omega arith;
    item = λ i lt. item-turned x rest i h full (omega arith);
    sum = omega (arith, h.sum, total-append rest p);
  }

  inserted :
      (b : Bool) (w : List RequestStats)
      → (length w == 200) ≡ b
      → Holds q w
      → (q' : StatsQueue) × (insert p q ≡ ok q')
        × Holds q' (if b then drop 1 w ++ p ∷ [] else w ++ p ∷ [])
  inserted true [] e h = cc
  inserted true (x ∷ rest) e h =
      let full : q.size ≡ 200 = h.size ∙ (==_iff (suc (length rest)) 200).0 e in
      let first : q.items q.front ≡ some x =
        ap q.items (omega (arith, h.front_bound)) ∙ h.item 0 (omega arith) in
      (turned x, insert-turned x (ap (λ n. n == 200) full) first, Holds-turned x rest h full)
  inserted false w e h =
      let differs : q.size ≢ 200 = λ full. let same = sym h.size ∙ full in absurd (ground arith) in
      let room : q.size < 200 = omega (arith, h.bound, differs) in
      (grown, insert-grown (ne→==_false q.size 200 differs), Holds-grown w h room)

  -- `Insert` keeps the last 200 requests, in their order, and the sum of their sizes: on a ring that
  -- holds a list of requests it succeeds, and the ring then holds the list with the new request at
  -- its end, without the oldest one if there were 200.
  pub insert-Holds :
      (w : List RequestStats)
      → Holds q w
      → (q' : StatsQueue) × (insert p q ≡ ok q') × Holds q' (window w p)
  insert-Holds w h = inserted (length w == 200) w refl h

-- A cleared ring holds nothing, whatever its places still have.
Holds-clear : (q : StatsQueue) → Holds (clear q) []
unfolding clear next_place
Holds-clear q = record {
  size = refl;
  bound = omega arith;
  front_bound = omega arith;
  next = refl;
  item = λ i h. absurd (omega arith);
  sum = refl;
}
