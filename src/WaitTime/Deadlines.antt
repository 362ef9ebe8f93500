-- ===== src/WaitTime/Deadlines.antt =====
-- Which goroutines `Trigger` of pkg/wait/wait_time.go wakes.
use etcd_cr.Common.{
  ℕ, ◌≤◌, ◌<◌, ◌≡◌, ◌≢◌, refl, true, false, ◌||◌, none, some, List, [], ◌∷◌, ok, leb, ◌==◌,
  if◌then◌else◌, arith, Bool-cases, inl, inr,
}
use etcd_cr.Common.Maps.{lookup, insert, has, keys}
use etcd_cr.WaitTime.{close, close_due}

abbrev pub channels : List (ℕ × ℕ) → List ℕ
channels [] = []
channels ((t, ch) ∷ m) = ch ∷ channels m

-- The entries have their own deadlines and their own open channels.
abbrev pub Open : List (ℕ × ℕ) → List ℕ → Type 0
Open [] closed = Unit {0}
Open ((t, ch) ∷ m) closed =
    (has t (keys m) ≡ false)
    × (has ch (channels m) ≡ false)
    × (has ch closed ≡ false)
    × Open m closed

-- What `Trigger` leaves, and the channels that are closed after it.
abbrev pub later : ℕ → List (ℕ × ℕ) → List (ℕ × ℕ)
later e [] = []
later e ((t, ch) ∷ m) = if leb t e then later e m else (t, ch) ∷ later e m

abbrev pub due : ℕ → List (ℕ × ℕ) → List ℕ → List ℕ
due e [] closed = closed
due e ((t, ch) ∷ m) closed = if leb t e then due e m (ch ∷ closed) else due e m closed

Open-closing :
    (ch : ℕ) (m : List (ℕ × ℕ)) (closed : List ℕ)
    → has ch (channels m) ≡ false
    → Open m closed
    → Open m (ch ∷ closed)
Open-closing ch [] closed n o = tt
Open-closing ch ((t, c) ∷ m) closed n o = ground (arith, Open-closing ch m closed)

pub close_due-eq :
    (e : ℕ) (m : List (ℕ × ℕ)) (closed : List ℕ)
    → Open m closed
    → close_due e m closed ≡ ok (later e m, due e m closed)
unfolding close_due close
close_due-eq e [] closed o = refl
close_due-eq e ((t, ch) ∷ m) closed o = elim (Bool-cases (leb t e)) [
  | inl now ↦
      rw (now, close_due, o.2) (close_due-eq e m (ch ∷ closed) (Open-closing ch m closed o.1 o.3))
  | inr not_yet ↦ rw (not_yet, close_due, close_due-eq e m closed o.3) refl
]

pub lookup-later :
    (e t ch : ℕ) (m : List (ℕ × ℕ)) → lookup t m ≡ some ch → e < t → lookup t (later e m) ≡ some ch
lookup-later e t ch [] h l = h
lookup-later e t ch ((u, c) ∷ m) h l = ground (arith, lookup-later e t ch m)

pub has-due_closed :
    (e ch : ℕ) (m : List (ℕ × ℕ)) (closed : List ℕ)
    → has ch closed ≡ true
    → has ch (due e m closed) ≡ true
has-due_closed e ch [] closed h = h
has-due_closed e ch ((u, c) ∷ m) closed h =
    ground (arith, has-due_closed e ch m closed, has-due_closed e ch m (c ∷ closed))

pub has-due :
    (e t ch : ℕ) (m : List (ℕ × ℕ)) (closed : List ℕ)
    → lookup t m ≡ some ch
    → t ≤ e
    → has ch (due e m closed) ≡ true
has-due e t ch [] closed h l = cc
has-due e t ch ((u, c) ∷ m) closed h l = ground (
  arith,
  has-due_closed e c m (c ∷ closed),
  has-due e t ch m closed,
  has-due e t ch m (c ∷ closed),
)

-- A channel of no entry stays as it was.
pub has-due_other :
    (e ch : ℕ) (m : List (ℕ × ℕ)) (closed : List ℕ)
    → has ch (channels m) ≡ false
    → has ch (due e m closed) ≡ has ch closed
has-due_other e ch [] closed n = refl
has-due_other e ch ((u, c) ∷ m) closed n =
    ground (arith, has-due_other e ch m closed, has-due_other e ch m (c ∷ closed))

has-channels : (t ch : ℕ) (m : List (ℕ × ℕ)) → lookup t m ≡ some ch → has ch (channels m) ≡ true
has-channels t ch [] h = cc
has-channels t ch ((u, c) ∷ m) h = ground (arith, has-channels t ch m)

pub has-due_later :
    (e t ch : ℕ) (m : List (ℕ × ℕ)) (closed : List ℕ)
    → Open m closed
    → lookup t m ≡ some ch
    → e < t
    → has ch (due e m closed) ≡ false
has-due_later e t ch [] closed o h l = cc
has-due_later e t ch ((u, c) ∷ m) closed o h l = ground (
  arith,
  has-due_other e c m closed,
  has-due_later e t ch m closed,
  has-due_later e t ch m (c ∷ closed),
  Open-closing c m closed,
)

has-keys-later :
    (e t : ℕ) (m : List (ℕ × ℕ)) → has t (keys m) ≡ false → has t (keys (later e m)) ≡ false
has-keys-later e t [] n = n
has-keys-later e t ((u, c) ∷ m) n = ground (arith, has-keys-later e t m)

pub has-channels-later :
    (e ch : ℕ) (m : List (ℕ × ℕ))
    → has ch (channels m) ≡ false
    → has ch (channels (later e m)) ≡ false
has-channels-later e ch [] n = n
has-channels-later e ch ((u, c) ∷ m) n = ground (arith, has-channels-later e ch m)

pub Open-later :
    (e : ℕ) (m : List (ℕ × ℕ)) (closed : List ℕ) → Open m closed → Open (later e m) (due e m closed)
Open-later e [] closed o = tt
Open-later e ((u, c) ∷ m) closed o = ground (
  arith,
  Open-later e m (c ∷ closed),
  Open-later e m closed,
  Open-closing c m closed,
  has-keys-later e u m,
  has-channels-later e c m,
  has-due_other e c m closed,
)

has-keys-insert :
    (d v t : ℕ) (m : List (ℕ × ℕ))
    → d ≢ t
    → has t (keys m) ≡ false
    → has t (keys (insert d v m)) ≡ false
has-keys-insert d v t [] n h = ground arith
has-keys-insert d v t ((u, c) ∷ m) n h = ground (arith, has-keys-insert d v t m n)

pub has-channels-insert :
    (d v ch : ℕ) (m : List (ℕ × ℕ))
    → lookup d m ≡ none
    → has ch (channels (insert d v m)) ≡ (has ch (channels m) || v == ch)
has-channels-insert d v ch [] n = ground arith
has-channels-insert d v ch ((u, c) ∷ m) n = ground (arith, has-channels-insert d v ch m)

pub Open-insert :
    (d v : ℕ) (m : List (ℕ × ℕ)) (closed : List ℕ)
    → lookup d m ≡ none
    → has v (channels m) ≡ false
    → has v closed ≡ false
    → Open m closed
    → Open (insert d v m) closed
Open-insert d v [] closed n fresh apart o = (refl, refl, apart, tt)
Open-insert d v ((u, c) ∷ m) closed n fresh apart o =
    ground (arith, Open-insert d v m closed, has-keys-insert d v u m, has-channels-insert d v c m)
