-- ===== src/Common/Maps.antt =====
-- Go maps keyed by node ids. A set of ids, `map[uint64]struct{}`, is nil or a list of its ids; a
-- map with values is an association list. `range` visits the entries in list order, which stands
-- for whatever order the run picks.
use Prim.Native.Nat.{ℕ}
use mathlib.Core.Path.{◌≡◌, refl, ap, sym, ◌∙◌}
use mathlib.Core.Logic.{◌≢◌, ◌⊎◌, inl, inr}
use mathlib.Core.Bool.{Bool, true, false, ◌||◌}
use mathlib.Core.Option.{Option, none, some}
use mathlib.Core.List.{List, [], ◌∷◌, ◌++◌}
use native.Mathlib.Omega.{arith}
use etcd_cr.Common.Tests.{◌==◌, ==_iff, ==_refl, ne→==_false, if◌then◌else◌}
use etcd_cr.Common.Results.{Result, ok, panic}

abbrev pub IdSet : Type 0
IdSet = Option (List ℕ)

-- What `range` and `len` see: a nil map is empty.
abbrev pub ids : IdSet → List ℕ
ids none = []
ids (some xs) = xs

-- `_, ok := m[id]`
abbrev pub has : ℕ → List ℕ → Bool
has id [] = false
has id (x ∷ xs) = x == id || has id xs

abbrev pub add_id : ℕ → List ℕ → List ℕ
add_id id xs = if has id xs then xs else id ∷ xs

pub has-append : (id : ℕ) (xs ys : List ℕ) → has id (xs ++ ys) ≡ (has id xs || has id ys)
has-append id [] ys = refl
has-append id (x ∷ xs) ys = ground (arith, has-append id xs ys)

-- `m[id] = struct{}{}`, which panics on a nil map.
abbrev pub put_id : ℕ → IdSet → Result IdSet
put_id id none = panic
put_id id (some xs) = ok (some (add_id id xs))

-- `delete(m, id)`
abbrev pub remove_id : ℕ → List ℕ → List ℕ
remove_id id [] = []
remove_id id (x ∷ xs) = if x == id then remove_id id xs else x ∷ remove_id id xs

-- The keys of a map are distinct.
abbrev pub Distinct : List ℕ → Type 0
Distinct [] = Unit
Distinct (x ∷ xs) = (has x xs ≡ false) × Distinct xs

add_id-Distinct : (id : ℕ) (xs : List ℕ) → Distinct xs → Distinct (add_id id xs)
add_id-Distinct id xs d = ground arith

pub has-add_id : (id j : ℕ) (xs : List ℕ) → has j (add_id id xs) ≡ (id == j || has j xs)
has-add_id id j xs = ground arith

pub has-remove_id :
    (id j : ℕ) (xs : List ℕ) → has j (remove_id id xs) ≡ (if id == j then false else has j xs)
has-remove_id id j [] = ground arith
has-remove_id id j (x ∷ xs) = ground (arith, has-remove_id id j xs)

pub remove_id-Distinct : (id : ℕ) (xs : List ℕ) → Distinct xs → Distinct (remove_id id xs)
remove_id-Distinct id [] d = tt
remove_id-Distinct id (x ∷ xs) d = ground (arith, remove_id-Distinct id xs, has-remove_id id x xs)

module _ {ℓ} {V : Type ℓ} where
  abbrev pub lookup : ℕ → List (ℕ × V) → Option V
  lookup id [] = none
  lookup id ((i, a) ∷ rest) = if i == id then some a else lookup id rest

  -- `m[id] = a`
  abbrev pub insert : ℕ → V → List (ℕ × V) → List (ℕ × V)
  insert id a ((i, b) ∷ rest) = if i == id then (i, a) ∷ rest else (i, b) ∷ insert id a rest
  insert id a [] = (id, a) ∷ []

  pub lookup-insert :
      (id j : ℕ) (a : V) (entries : List (ℕ × V))
      → lookup j (insert id a entries) ≡ (if id == j then some a else lookup j entries)
  lookup-insert id j a ((i, b) ∷ rest) = ground (arith, lookup-insert id j a rest)
  lookup-insert id j a [] = refl

  abbrev pub keys : List (ℕ × V) → List ℕ
  keys [] = []
  keys ((j, w) ∷ m) = j ∷ keys m

module _ {ℓ} {V : Type ℓ} where
  -- `delete(m, id)`
  abbrev pub delete : ℕ → List (ℕ × V) → List (ℕ × V)
  delete id [] = []
  delete id ((i, a) ∷ rest) = if i == id then delete id rest else (i, a) ∷ delete id rest

  lookup-delete :
      (id j : ℕ) (entries : List (ℕ × V))
      → lookup j (delete id entries) ≡ (if id == j then none else lookup j entries)
  lookup-delete id j ((i, b) ∷ rest) = ground (arith, lookup-delete id j rest)
  lookup-delete id j [] = ground arith

  -- Where a binding of a changed map comes from.
  inserted_cases :
      (same : Bool) (a b : V) (o : Option V)
      → (if same then some a else o) ≡ some b
      → ((same ≡ true) × (a ≡ b)) ⊎ ((same ≡ false) × (o ≡ some b))
  inserted_cases true a b o h = inl (refl, cc)
  inserted_cases false a b o h = inr (refl, h)

  pub lookup-insert_cases :
      (id j : ℕ) (a b : V) (entries : List (ℕ × V))
      → lookup j (insert id a entries) ≡ some b
      → ((id ≡ j) × (a ≡ b)) ⊎ ((id ≢ j) × (lookup j entries ≡ some b))
  lookup-insert_cases id j a b entries h =
      elim (inserted_cases (id == j) a b (lookup j entries)
        (sym (lookup-insert id j a entries) ∙ h)) [
          | inl (e, v) ↦ inl ((==_iff id j).0 e, v)
          | inr (n, o) ↦ inr (λ e. absurd (ground arith), o)
        ]

  kept_cases :
      (same : Bool) (b : V) (o : Option V)
      → (if same then none else o) ≡ some b
      → (same ≡ false) × (o ≡ some b)
  kept_cases true b o h = cc
  kept_cases false b o h = (refl, h)

  pub lookup-delete_cases :
      (id j : ℕ) (b : V) (entries : List (ℕ × V))
      → lookup j (delete id entries) ≡ some b
      → (id ≢ j) × (lookup j entries ≡ some b)
  lookup-delete_cases id j b entries h =
      let kept = kept_cases (id == j) b (lookup j entries) (sym (lookup-delete id j entries) ∙ h) in
      (λ e. let n = kept.0 in absurd (ground arith), kept.1)

  pub lookup-insert_same :
      (id : ℕ) (a : V) (entries : List (ℕ × V)) → lookup id (insert id a entries) ≡ some a
  lookup-insert_same id a entries =
      lookup-insert id id a entries ∙ ap (λ b. if b then some a else lookup id entries) (==_refl id)

  pub lookup-insert_other :
      (id j : ℕ) (a : V) (entries : List (ℕ × V))
      → id ≢ j
      → lookup j (insert id a entries) ≡ lookup j entries
  lookup-insert_other id j a entries n =
      lookup-insert id j a entries
      ∙ ap (λ b. if b then some a else lookup j entries) (ne→==_false id j n)

  pub lookup-delete_same : (id : ℕ) (entries : List (ℕ × V)) → lookup id (delete id entries) ≡ none
  lookup-delete_same id entries =
      lookup-delete id id entries ∙ ap (λ b. if b then none else lookup id entries) (==_refl id)

  pub lookup-delete_other :
      (id j : ℕ) (entries : List (ℕ × V)) → id ≢ j → lookup j (delete id entries) ≡ lookup j entries
  lookup-delete_other id j entries n =
      lookup-delete id j entries
      ∙ ap (λ b. if b then none else lookup j entries) (ne→==_false id j n)
