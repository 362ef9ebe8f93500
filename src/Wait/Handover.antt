-- ===== src/Wait/Handover.antt =====
-- The channels of pkg/wait/wait.go when goroutines register and trigger ids in any order.
use etcd_cr.Common.{
  ℕ, suc, ◌<◌, ◌≡◌, ◌≢◌, refl, Bool, true, false, Option, none, some, [], ◌∷◌, ok, panic, sym, ap,
  subst, ◌∙◌, ok_injective, ==_iff, arith, ◌==◌, if◌then◌else◌, ◌⊎◌, inl, inr,
}
use etcd_cr.Common.Maps.{
  lookup, insert, delete, lookup-insert_cases, lookup-delete_cases, lookup-insert_same,
  lookup-insert_other,
}
use etcd_cr.Wait.Steps.{Handing, Step, Reached, at_start, after, registered, taken, handed}
use etcd_cr.Wait.{Chan, WaitList, sent, fresh, new, register, take_waiter, hand_over}

module _ {A : Type 0} where
  -- No two ids and no id and a pending send share a channel, and their channels are open and empty.
  pub record Separate (s : Handing A) : Type 0 where
    pub waiting_fresh :
        (id ch : ℕ) → lookup id s.list.m ≡ some ch → lookup ch s.list.chans ≡ some fresh
    pub waiting_apart :
        (id id' ch : ℕ) → lookup id s.list.m ≡ some ch → lookup id' s.list.m ≡ some ch → id ≡ id'
    pub pending_fresh :
        (ch : ℕ) (x : A) → lookup ch s.pending ≡ some x → lookup ch s.list.chans ≡ some fresh
    pub pending_apart :
        (id ch : ℕ) (x : A) → lookup ch s.pending ≡ some x → lookup id s.list.m ≢ some ch
    pub made_above : (ch : ℕ) (c : Chan A) → lookup ch s.list.chans ≡ some c → ch < s.list.made

  Separate-start : Separate (record { list = new; pending = [] })
  unfolding new
  Separate-start = record {
    waiting_fresh = λ id ch h. cc;
    waiting_apart = λ id id' ch h h'. cc;
    pending_fresh = λ ch x h. cc;
    pending_apart = λ id ch x h. cc;
    made_above = λ ch c h. cc;
  }

  unfoldable pub registered_waits : (id : ℕ) (w : WaitList A) → WaitList A
  registered_waits id w = record {
    m = insert id w.made w.m;
    chans = insert w.made fresh w.chans;
    made = suc w.made;
  }

  register_by :
      (o : Option ℕ) (a b : ℕ × WaitList A)
      → elim o [ none ↦ ok a | some _ ↦ panic ] ≡ ok b
      → (o ≡ none) × (b ≡ a)
  register_by none a b h = (refl, sym (ok_injective h))
  register_by (some _) a b h = cc

  register-inverse :
      (id ch : ℕ) (w w' : WaitList A)
      → register id w ≡ ok (ch, w')
      → (lookup id w.m ≡ none) × (◌≡◌ {A = ℕ × WaitList A} (ch, w') (w.made, registered_waits id w))
  unfolding register registered_waits
  register-inverse id ch w w' h =
      register_by (lookup id w.m) (w.made, registered_waits id w) (ch, w') h

  unfoldable pub handed_chans : ℕ → A → WaitList A → WaitList A
  handed_chans ch x w = record w {
    chans = insert ch (record { buffer = some x; closed = true }) w.chans;
  }

  -- A send on an open, empty channel goes through.
  pub hand_over-fresh :
      (ch : ℕ) (x : A) (w : WaitList A)
      → lookup ch w.chans ≡ some fresh
      → hand_over ch x w ≡ sent (handed_chans ch x w)
  unfolding hand_over handed_chans
  hand_over-fresh ch x w h = rw (h, hand_over) refl

  below_made :
      (ch : ℕ) (s : Handing A) → Separate s → lookup ch s.list.chans ≡ some fresh → ch < s.list.made
  below_made ch s v h = v.made_above ch fresh h

  still_fresh :
      (ch : ℕ) (s : Handing A)
      → Separate s
      → lookup ch s.list.chans ≡ some fresh
      → lookup ch (insert s.list.made fresh s.list.chans) ≡ some fresh
  still_fresh ch s v h =
      lookup-insert_other s.list.made ch fresh s.list.chans
        (λ e. omega (arith, below_made ch s v h))
      ∙ h

  kept_or_first :
      (first : Bool) (x y : A) (o : Option A)
      → (if first then some x else o) ≡ some y
      → (first ≡ true) ⊎ (o ≡ some y)
  kept_or_first true x y o h = inl refl
  kept_or_first false x y o h = inr h

  Separate-registered :
      (id : ℕ) (s : Handing A)
      → lookup id s.list.m ≡ none
      → Separate s
      → Separate (record s { list = registered_waits id s.list })
  unfolding registered_waits
  Separate-registered id s free v = record {
    waiting_fresh = λ i ch h. elim (lookup-insert_cases id i s.list.made ch s.list.m h) [
      | inl (_, e) ↦
          ap (λ c. lookup c (insert s.list.made fresh s.list.chans)) (sym e)
          ∙ lookup-insert_same s.list.made fresh s.list.chans
      | inr (_, old) ↦ still_fresh ch s v (v.waiting_fresh i ch old)
    ];
    waiting_apart = λ i j ch h h'. elim (lookup-insert_cases id i s.list.made ch s.list.m h) [
      | inl (e, c) ↦ elim (lookup-insert_cases id j s.list.made ch s.list.m h') [
        | inl (e', _) ↦ sym e ∙ e'
        | inr (_, old) ↦ absurd (omega (arith, below_made ch s v (v.waiting_fresh j ch old)))
      ]
      | inr (_, old) ↦ elim (lookup-insert_cases id j s.list.made ch s.list.m h') [
        | inl (_, c) ↦ absurd (omega (arith, below_made ch s v (v.waiting_fresh i ch old)))
        | inr (_, old') ↦ v.waiting_apart i j ch old old'
      ]
    ];
    pending_fresh = λ ch x h. still_fresh ch s v (v.pending_fresh ch x h);
    pending_apart = λ i ch x h g. elim (lookup-insert_cases id i s.list.made ch s.list.m g) [
      | inl (_, c) ↦ omega (arith, below_made ch s v (v.pending_fresh ch x h))
      | inr (_, old) ↦ v.pending_apart i ch x h old
    ];
    made_above = λ ch c h. elim (lookup-insert_cases s.list.made ch fresh c s.list.chans h) [
      | inl (e, _) ↦ omega arith
      | inr (_, old) ↦ omega (arith, v.made_above ch c old)
    ];
  }

  Separate-taken :
      (id ch : ℕ) (x : A) (s : Handing A)
      → lookup id s.list.m ≡ some ch
      → Separate s
      → Separate (record {
        list = record s.list { m = delete id s.list.m };
        pending = (ch, x) ∷ s.pending;
      })
  Separate-taken id ch x s waits v = record {
    waiting_fresh = λ i c h. v.waiting_fresh i c (lookup-delete_cases id i c s.list.m h).1;
    waiting_apart = λ i j c h h'.
        v.waiting_apart i j c (lookup-delete_cases id i c s.list.m h).1
          (lookup-delete_cases id j c s.list.m h').1;
    pending_fresh = λ c y h. elim (kept_or_first (ch == c) x y (lookup c s.pending) h) [
      | inl e ↦
          ap (λ k. lookup k s.list.chans) (sym ((==_iff ch c).0 e)) ∙ v.waiting_fresh id ch waits
      | inr old ↦ v.pending_fresh c y old
    ];
    pending_apart = λ i c y h g.
        let still = lookup-delete_cases id i c s.list.m g in
        elim (kept_or_first (ch == c) x y (lookup c s.pending) h) [
          | inl e ↦ still.0 (v.waiting_apart id i c (waits ∙ ap some ((==_iff ch c).0 e)) still.1)
          | inr old ↦ v.pending_apart i c y old still.1
        ];
    made_above = v.made_above;
  }

  Separate-handed :
      (ch : ℕ) (x : A) (s : Handing A)
      → lookup ch s.pending ≡ some x
      → Separate s
      → Separate (record { list = handed_chans ch x s.list; pending = delete ch s.pending })
  unfolding handed_chans
  Separate-handed ch x s due v = record {
    waiting_fresh = λ i c h.
        lookup-insert_other ch c (record { buffer = some x; closed = true }) s.list.chans
          (λ e. v.pending_apart i ch x due (h ∙ ap some (sym e)))
        ∙ v.waiting_fresh i c h;
    waiting_apart = v.waiting_apart;
    pending_fresh = λ c y h.
        let old = lookup-delete_cases ch c y s.pending h in
        lookup-insert_other ch c (record { buffer = some x; closed = true }) s.list.chans old.0
        ∙ v.pending_fresh c y old.1;
    pending_apart = λ i c y h. v.pending_apart i c y (lookup-delete_cases ch c y s.pending h).1;
    made_above = λ c d h.
        elim (lookup-insert_cases ch c (record { buffer = some x; closed = true }) d s.list.chans
          h) [
            | inl (e, _) ↦ omega (arith, below_made ch s v (v.pending_fresh ch x due))
            | inr (_, old) ↦ v.made_above c d old
          ];
  }

  sent_injective : {w w' : WaitList A} → sent w ≡ sent w' → w ≡ w'
  sent_injective h = cc

  Separate-Step : (s s' : Handing A) → Separate s → Step s s' → Separate s'
  unfolding take_waiter
  Separate-Step s _ v (registered id ch w h) =
      let r = register-inverse id ch s.list w h in
      subst (λ l. Separate (record s { list = l })) (sym (ap (λ p. p.1) r.1))
        (Separate-registered id s r.0 v)
  Separate-Step s _ v (taken id ch x h) = Separate-taken id ch x s h v
  Separate-Step s _ v (handed ch x w due h) =
      let e : handed_chans ch x s.list ≡ w =
        sent_injective (sym (hand_over-fresh ch x s.list (v.pending_fresh ch x due)) ∙ h) in
      subst (λ l. Separate (record { list = l; pending = delete ch s.pending })) e
        (Separate-handed ch x s due v)

  pub Separate-reached : (s : Handing A) → Reached s → Separate s
  Separate-reached _ at_start = Separate-start
  Separate-reached _ (after s s' r step) = Separate-Step s s' (Separate-reached s r) step

  -- In whatever order goroutines register ids, take the channels of triggered ids and send on them,
  -- a send of `Trigger` never blocks and never meets a closed channel; it leaves its value in the
  -- channel, closed, and changes no other channel and no registration.
  pub hand_over-delivers :
      (s : Handing A) (ch : ℕ) (x : A)
      → Reached s
      → lookup ch s.pending ≡ some x
      → (w : WaitList A) × (hand_over ch x s.list ≡ sent w)
        × (lookup ch w.chans ≡ some (record { buffer = some x; closed = true }))
        × ((other : ℕ) → ch ≢ other → lookup other w.chans ≡ lookup other s.list.chans)
        × (w.m ≡ s.list.m)
  unfolding handed_chans
  hand_over-delivers s ch x r due =
      let full : Chan A = record { buffer = some x; closed = true } in
      let v = Separate-reached s r in
      (
        handed_chans ch x s.list,
        hand_over-fresh ch x s.list (v.pending_fresh ch x due),
        lookup-insert_same ch full s.list.chans,
        λ other n. lookup-insert_other ch other full s.list.chans n,
        refl,
      )
