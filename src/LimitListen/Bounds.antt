-- ===== src/LimitListen/Bounds.antt =====
-- The connections that pkg/transport/limit_listen.go keeps open.
use etcd_cr.Common.{
  ℕ, suc, ◌+◌, ◌-◌, ◌≤◌, ◌<◌, ◌≡◌, ◌⊎◌, refl, sym, subst, ◌∙◌, Bool, true, false, Option, none,
  some, List, [], ◌∷◌, arith, ltb, ltb→lt, if◌then◌else◌, inl, inr, ne→==_false,
}
use etcd_cr.Common.Maps.{lookup, insert}
use etcd_cr.LimitListen.{
  Listener, limit_listener, acquire, release, begin_accept, give, fail_accept, close, Step, Reached,
  began, gave, failed, closed, at_start, after,
}

-- The connections that are not closed.
abbrev pub open_conns : List (ℕ × Bool) → ℕ
open_conns [] = 0
open_conns ((conn, done) ∷ conns) = (if done then 0 else 1) + open_conns conns

open_conns-given :
    (conn : ℕ) (conns : List (ℕ × Bool))
    → lookup conn conns ≡ none
    → open_conns (insert conn false conns) ≡ suc (open_conns conns)
open_conns-given conn [] n = ground arith
open_conns-given conn ((c, b) ∷ conns) n = ground (arith, open_conns-given conn conns)

open_conns-closed :
    (conn : ℕ) (conns : List (ℕ × Bool))
    → lookup conn conns ≡ some false
    → suc (open_conns (insert conn true conns)) ≡ open_conns conns
open_conns-closed conn [] n = cc
open_conns-closed conn ((c, b) ∷ conns) n = ground (arith, open_conns-closed conn conns)

-- The buffer of `sem` has one for each open connection and each call of `Accept`.
record Counted (n : ℕ) (l : Listener) : Type 0 where
  same_capacity : l.capacity ≡ n
  in_use : l.sem ≡ l.accepting + open_conns l.conns
  bound : l.sem ≤ n

release-some : (l : Listener) → 0 < l.sem → release l ≡ some (record l { sem = l.sem - 1 })
unfolding release
release-some l h = rw (ne→==_false l.sem 0 (λ e. omega (arith, e)), release) refl

some_injective {ℓ} : {A : Type ℓ} {a b : A} → some a ≡ some b → a ≡ b
some_injective h = cc

begin_accept-inverse :
    (l l' : Listener)
    → begin_accept l ≡ some l'
    → (l.sem < l.capacity) × (l' ≡ record l { sem = l.sem + 1; accepting = l.accepting + 1 })
unfolding begin_accept acquire
begin_accept-inverse l l' h = by_room (ltb l.sem l.capacity) refl h
  where
    by_room :
        (b : Bool)
        → ltb l.sem l.capacity ≡ b
        → elim (if b then some (record l { sem = l.sem + 1 }) else none) [
          | none ↦ none
          | some l1 ↦ some (record l1 { accepting = l1.accepting + 1 })
        ]
          ≡ some l'
        → (l.sem < l.capacity) × (l' ≡ record l { sem = l.sem + 1; accepting = l.accepting + 1 })
    by_room true e h = (ltb→lt l.sem l.capacity e, sym (some_injective h))
    by_room false e h = cc

-- What a `Close` that returns has done: nothing, on a closed connection, or the release.
close-inverse :
    (conn : ℕ) (l l' : Listener)
    → close conn l ≡ some l'
    → (l' ≡ l)
      ⊎ ((lookup conn l.conns ≡ some false)
          × (release (record l { conns = insert conn true l.conns }) ≡ some l'))
unfolding close
close-inverse conn l l' h = by_conn (lookup conn l.conns) refl h
  where
    by_conn :
        (o : Option Bool)
        → lookup conn l.conns ≡ o
        → elim o [
          | none ↦ none
          | some true ↦ some l
          | some false ↦ release (record l { conns = insert conn true l.conns })
        ]
          ≡ some l'
        → (l' ≡ l)
          ⊎ ((lookup conn l.conns ≡ some false)
              × (release (record l { conns = insert conn true l.conns }) ≡ some l'))
    by_conn none e h = cc
    by_conn (some true) e h = inl (sym (some_injective h))
    by_conn (some false) e h = inr (e, h)

Counted-Step : (n : ℕ) (l l' : Listener) → Counted n l → Step l l' → Counted n l'
unfolding give fail_accept
Counted-Step n l l' c (began _ h) =
    let (room, e) = begin_accept-inverse l l' h in
    subst (Counted n) (sym e) (record {
      same_capacity = c.same_capacity;
      in_use = omega (arith, c.in_use);
      bound = omega (arith, c.same_capacity);
    })
Counted-Step n l _ c (gave conn waits new) = record {
  same_capacity = c.same_capacity;
  in_use = omega (arith, c.in_use, ltb→lt 0 l.accepting waits, open_conns-given conn l.conns new);
  bound = c.bound;
}
Counted-Step n l l' c (failed _ waits h) =
    let some_waits = ltb→lt 0 l.accepting waits in
    let l1 : Listener = record l { accepting = l.accepting - 1 } in
    let released = release-some l1 (omega (arith, c.in_use)) in
    subst (Counted n) (some_injective (sym released ∙ h)) (record {
      same_capacity = c.same_capacity;
      in_use = omega (arith, c.in_use);
      bound = omega (arith, c.bound);
    })
Counted-Step n l l' c (closed conn _ h) = elim (close-inverse conn l l' h) [
  | inl same ↦ subst (Counted n) (sym same) c
  | inr (opened, h1) ↦
      let fewer = open_conns-closed conn l.conns opened in
      let l1 : Listener = record l { conns = insert conn true l.conns } in
      let released = release-some l1 (omega (arith, c.in_use)) in
      subst (Counted n) (some_injective (sym released ∙ h1)) (record {
        same_capacity = c.same_capacity;
        in_use = omega (arith, c.in_use);
        bound = omega (arith, c.bound);
      })
]

Counted-reached : (n : ℕ) (l : Listener) → Reached n l → Counted n l
unfolding limit_listener
Counted-reached n _ at_start = record { same_capacity = refl; in_use = refl; bound = omega arith }
Counted-reached n _ (after l l' r step) = Counted-Step n l l' (Counted-reached n l r) step

-- However `Accept` and `Close` interleave, a listener with the limit `n` has at most `n` open
-- connections, those that `Accept` waits for included, and `Close` never waits, on a connection that
-- the listener gave out.
pub open_conns-bounded :
    (n : ℕ) (l : Listener)
    → Reached n l
    → (l.accepting + open_conns l.conns ≤ n)
      × ((conn : ℕ) (done : Bool)
          → lookup conn l.conns ≡ some done
          → (l' : Listener) × (close conn l ≡ some l'))
unfolding close
open_conns-bounded n l r =
    let c = Counted-reached n l r in
    (omega (arith, c.in_use, c.bound), λ conn done h. closes conn done h)
  where
    closes :
        (conn : ℕ) (done : Bool)
        → lookup conn l.conns ≡ some done
        → (l' : Listener) × (close conn l ≡ some l')
    closes conn true h = (l, rw (h, close) refl)
    closes conn false h =
        let c = Counted-reached n l r in
        let fewer = open_conns-closed conn l.conns h in
        let l1 : Listener = record l { conns = insert conn true l.conns } in
        (record l1 { sem = l1.sem - 1 }, rw (h, close) (release-some l1 (omega (arith, c.in_use))))
