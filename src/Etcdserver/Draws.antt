-- ===== src/Etcdserver/Draws.antt =====
-- The ids that requests of etcdserver/v3_server.go draw and register, in any interleaving.
use etcd_cr.Common.{
  List, [], ◌∷◌, ◌==◌, ==_iff, Bool-cases, if◌then◌else◌, request_too_large, ℕ, suc, ◌+◌, ◌*◌, ◌%◌,
  ◌≤◌, ◌<◌, ◌≡◌, ◌≢◌, refl, sym, subst, ap, ◌∙◌, Bool, true, false, Option, none, some, Result, ok,
  err, panic, arith, ltb, inl, inr, u64_mod, Option-cases,
}
use etcd_cr.Wait.{register}
use etcd_cr.Common.Maps.{
  Distinct, has, remove_id, has-remove_id, remove_id-Distinct, lookup, lookup-insert_cases,
  lookup-delete_cases,
}
use etcd_cr.Idutil.{next, new_generator, suffix_span}
use etcd_cr.Idutil.Uniqueness.{
  IsGenerator, next_id, next_suffix, next-IsGenerator, new_generator-IsGenerator,
}
use etcd_cr.Wait.{WaitList, sent, new, trigger}
use etcd_cr.Wait.Triggers.{trigger-m}
use etcd_cr.Wait.Handover.{registered_waits}
use etcd_cr.Etcdserver.{EtcdServer, ApplyResult, draw_id, register_id, new_server}

-- The ids that are drawn and not registered, after one more draw.
abbrev pub with_drawn : Result ℕ → List ℕ → List ℕ
with_drawn (ok id) ids = id ∷ ids
with_drawn (err e) ids = ids
with_drawn panic ids = ids

-- The id of one of the first `d` calls of `Next`.
abbrev pub Drawn : ℕ → ℕ → ℕ → ℕ → Type 0
Drawn member first d id =
    (k : ℕ) × (k < d) × (id ≡ member * suffix_span + (first + k + 1) % suffix_span)

later_drawn : (member first d id : ℕ) → Drawn member first d id → Drawn member first (suc d) id
later_drawn member first d id (k, before, e) = (k, omega arith, e)

module _ {P : Type 0} where
  -- A server after `n` calls of `Next` since it started, and the ids that requests have drawn and not
  -- registered yet. The draws and registrations of concurrent requests come in any order, with
  -- triggers and moves of the indices between them; the guard on the indices changes nothing, so that
  -- a draw may follow it at any time. The size of a request's encoding is whatever it is.
  pub data Run (first : EtcdServer P) : ℕ → EtcdServer P → List ℕ → Type 0 where
    at_start : Run first 0 first []
    drew :
        (n : ℕ) (s : EtcdServer P) (ids : List ℕ) (size : ℕ → ℕ)
        → Run first n s ids
        → Run first (suc n) (draw_id size s).0 (with_drawn (draw_id size s).1 ids)
    registered :
        (n : ℕ) (s : EtcdServer P) (ids : List ℕ) (id : ℕ)
        → Run first n s ids
        → has id ids ≡ true
        → Run first n (register_id id s).0 (remove_id id ids)
    triggered :
        (n : ℕ) (s : EtcdServer P) (ids : List ℕ) (id : ℕ) (x : Option (ApplyResult P))
        (w : WaitList (Option (ApplyResult P)))
        → Run first n s ids
        → trigger id x s.w ≡ sent w
        → Run first n (record s { w = w }) ids
    moved :
        (n : ℕ) (s : EtcdServer P) (ids : List ℕ) (applied committed : ℕ)
        → Run first n s ids
        → Run first n (record s { applied_index = applied; committed_index = committed }) ids

  -- What waits or is to be registered was drawn, by one of the `d` calls of `Next` so far; and no id
  -- is both or is to be registered twice.
  pub record Issued (member first d : ℕ) (s : EtcdServer P) (ids : List ℕ) : Type 0 where
    pub drawn : IsGenerator member s.req_id_gen
    pub count : s.req_id_gen.suffix ≡ (first + d) % u64_mod
    pub waiting : (id ch : ℕ) → lookup id s.w.m ≡ some ch → Drawn member first d id
    pub pending : (id : ℕ) → has id ids ≡ true → Drawn member first d id
    pub apart : (id ch : ℕ) → has id ids ≡ true → lookup id s.w.m ≢ some ch
    pub distinct : Distinct ids

  -- The next id is new.
  pub new_id :
      (member first d : ℕ) (s : EtcdServer P) (ids : List ℕ)
      → d < suffix_span
      → Issued member first d s ids
      → (id : ℕ) → Drawn member first d id
      → (next s.req_id_gen).0 ≢ id
  new_id member first d s ids few i id (k, before, e) same =
      omega (arith, e, same, next_id member s.req_id_gen i.drawn, i.count)

  not_pending :
      (member first d : ℕ) (s : EtcdServer P) (ids : List ℕ)
      → d < suffix_span
      → Issued member first d s ids
      → has (next s.req_id_gen).0 ids ≡ false
  not_pending member first d s ids few i = elim (Bool-cases (has (next s.req_id_gen).0 ids)) [
    | inl h ↦ absurd (
        new_id member first d s ids few i (next s.req_id_gen).0 (i.pending (next s.req_id_gen).0 h)
          refl)
    | inr h ↦ h
  ]

  Issued-drew :
      (size : ℕ → ℕ) (member first d : ℕ) (s : EtcdServer P) (ids : List ℕ)
      → d < suffix_span
      → Issued member first d s ids
      → Issued member first (suc d) (draw_id size s).0 (with_drawn (draw_id size s).1 ids)
  unfolding draw_id
  Issued-drew size member first d s ids few i =
      by_size (ltb s.max_request_bytes (size (next s.req_id_gen).0))
    where
      drawn_server : EtcdServer P
      drawn_server = record s { req_id_gen = (next s.req_id_gen).1 }

      id_now : ℕ
      id_now = (next s.req_id_gen).0

      by_size :
          (large : Bool)
          → Issued member first
              (suc d)
              drawn_server
              (with_drawn (if large then err request_too_large else ok id_now) ids)
      by_size true = record {
        drawn = next-IsGenerator member s.req_id_gen i.drawn;
        count = omega (arith, next_suffix s.req_id_gen, i.count);
        waiting = λ id ch h. later_drawn member first d id (i.waiting id ch h);
        pending = λ id h. later_drawn member first d id (i.pending id h);
        apart = i.apart;
        distinct = i.distinct;
      }
      by_size false = record {
        drawn = next-IsGenerator member s.req_id_gen i.drawn;
        count = omega (arith, next_suffix s.req_id_gen, i.count);
        waiting = λ id ch h. later_drawn member first d id (i.waiting id ch h);
        pending = λ id h. elim (Bool-cases (id_now == id)) [
          | inl e ↦ (
            d,
            omega arith,
            omega (arith, (==_iff id_now id).0 e, next_id member s.req_id_gen i.drawn, i.count),
          )
          | inr e ↦ later_drawn member first d id (i.pending id (ground arith))
        ];
        apart = λ id ch h w. elim (Bool-cases (id_now == id)) [
          | inl e ↦
              absurd
                (new_id member first d s ids few i id (i.waiting id ch w) ((==_iff id_now id).0 e))
          | inr e ↦ i.apart id ch (ground arith) w
        ];
        distinct = (not_pending member first d s ids few i, i.distinct);
      }

  -- `Register` of an id that does not wait.
  pub register_id-free :
      (id : ℕ) (s : EtcdServer P)
      → lookup id s.w.m ≡ none
      → register_id id s ≡ (record s { w = registered_waits id s.w }, ok (id, s.w.made))
  unfolding register_id register registered_waits
  register_id-free id s free = rw (free, register_id) refl

  pub free_id :
      (id : ℕ) (s : EtcdServer P) → ((ch : ℕ) → lookup id s.w.m ≢ some ch) → lookup id s.w.m ≡ none
  free_id id s n = elim (Option-cases (lookup id s.w.m)) [
    | inl free ↦ free
    | inr (ch, waits) ↦ absurd (n ch waits)
  ]

  Issued-registered :
      (member first d : ℕ) (s : EtcdServer P) (ids : List ℕ) (id : ℕ)
      → Issued member first d s ids
      → has id ids ≡ true
      → Issued member first d (record s { w = registered_waits id s.w }) (remove_id id ids)
  unfolding registered_waits
  Issued-registered member first d s ids id i there = record {
    drawn = i.drawn;
    count = i.count;
    waiting = λ j ch h. elim (lookup-insert_cases id j s.w.made ch s.w.m h) [
      | inl (e, _) ↦ subst (Drawn member first d) e (i.pending id there)
      | inr (_, old) ↦ i.waiting j ch old
    ];
    pending = λ j h. i.pending j (let kept = has-remove_id id j ids in ground arith);
    apart = λ j ch h w. elim (lookup-insert_cases id j s.w.made ch s.w.m w) [
      | inl (e, _) ↦ let kept = has-remove_id id j ids in absurd (ground arith)
      | inr (_, old) ↦ i.apart j ch (let kept = has-remove_id id j ids in ground arith) old
    ];
    distinct = remove_id-Distinct id ids i.distinct;
  }

  pub Issued-Run :
      (member first : ℕ) (begin : EtcdServer P) (n : ℕ) (s : EtcdServer P) (ids : List ℕ)
      → Issued member first 0 begin []
      → n ≤ suffix_span
      → Run begin n s ids
      → Issued member first n s ids
  Issued-Run member first begin _ _ _ i few at_start = i
  Issued-Run member first begin _ _ _ i few (drew n s ids size r) =
      Issued-drew size member first n s ids (omega arith)
        (Issued-Run member first begin n s ids i (omega arith) r)
  Issued-Run member first begin _ _ _ i few (registered n s ids id r there) =
      let old = Issued-Run member first begin n s ids i few r in
      subst (λ p. Issued member first n p.0 (remove_id id ids))
        (sym (register_id-free id s (free_id id s (λ ch. old.apart id ch there))))
        (Issued-registered member first n s ids id old there)
  Issued-Run member first begin _ _ _ i few (triggered n s ids id x w r t) =
      let old = Issued-Run member first begin n s ids i few r in
      let before : (j ch : ℕ) → lookup j w.m ≡ some ch → lookup j s.w.m ≡ some ch = λ j ch h.
        (lookup-delete_cases id j ch s.w.m (sym (ap (lookup j) (trigger-m id x s.w w t)) ∙ h)).1 in
      record {
        drawn = old.drawn;
        count = old.count;
        waiting = λ j ch h. old.waiting j ch (before j ch h);
        pending = old.pending;
        apart = λ j ch h w. old.apart j ch h (before j ch w);
        distinct = old.distinct;
      }
  Issued-Run member first begin _ _ _ i few (moved n s ids applied committed r) =
      let old = Issued-Run member first begin n s ids i few r in
      record {
        drawn = old.drawn;
        count = old.count;
        waiting = old.waiting;
        pending = old.pending;
        apart = old.apart;
        distinct = old.distinct;
      }

  pub Issued-new :
      (id now max_request_bytes election_ticks tick_ms : ℕ)
      → Issued
          (id % 65536)
          (new_generator (id % 65536) now).suffix
          0
          (new_server id now max_request_bytes election_ticks tick_ms)
          []
  unfolding new_server new
  Issued-new id now max_request_bytes election_ticks tick_ms =
      let g = new_generator-IsGenerator (id % 65536) now (omega arith) in
      record {
        drawn = g;
        count = omega (arith, g.suffix_bound);
        waiting = λ i ch h. cc;
        pending = λ i h. cc;
        apart = λ i ch h. cc;
        distinct = tt;
      }
