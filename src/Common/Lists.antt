-- ===== src/Common/Lists.antt =====
-- Go slices as lists, measured and indexed by native numbers.
use Prim.Native.Nat.{ℕ, zero, suc, ◌+◌, ◌-◌, ◌≤◌, ◌<◌, min}
use mathlib.Core.Path.{◌≡◌, refl, ap, sym, ◌∙◌}
use mathlib.Core.Logic.{◌≢◌}
use mathlib.Core.List.{List, [], ◌∷◌, ◌++◌}
use mathlib.Core.Option.{Option, none, some}
use native.Mathlib.Omega.{arith}

module _ {ℓ} {A : Type ℓ} where
  abbrev pub length : List A → ℕ
  length [] = 0
  length (x ∷ xs) = suc (length xs)

  abbrev pub get_elem? : List A → ℕ → Option A
  get_elem? [] i = none
  get_elem? (x ∷ xs) zero = some x
  get_elem? (x ∷ xs) (suc i) = get_elem? xs i

  abbrev pub take : ℕ → List A → List A
  take zero xs = []
  take (suc n) [] = []
  take (suc n) (x ∷ xs) = x ∷ take n xs

  abbrev pub drop : ℕ → List A → List A
  drop zero xs = xs
  drop (suc n) [] = []
  drop (suc n) (x ∷ xs) = drop n xs

  -- `xs[lo:hi]`, for bounds in range.
  abbrev pub segment : ℕ → ℕ → List A → List A
  segment lo hi xs = take (hi - lo) (drop lo xs)

  pub length-append : (xs ys : List A) → length (xs ++ ys) ≡ length xs + length ys
  length-append [] ys = omega arith
  length-append (x ∷ xs) ys = omega (arith, length-append xs ys)

  pub length-take : (n : ℕ) (xs : List A) → length (take n xs) ≡ min n (length xs)
  length-take zero xs = omega arith
  length-take (suc n) [] = omega arith
  length-take (suc n) (x ∷ xs) = omega (arith, length-take n xs)

  pub length-drop : (n : ℕ) (xs : List A) → length (drop n xs) ≡ length xs - n
  length-drop zero xs = omega arith
  length-drop (suc n) [] = omega arith
  length-drop (suc n) (x ∷ xs) = omega (arith, length-drop n xs)

  pub take-nil : (n : ℕ) → take n [] ≡ []
  take-nil zero = refl
  take-nil (suc n) = refl

  drop-nil : (n : ℕ) → drop n [] ≡ []
  drop-nil zero = refl
  drop-nil (suc n) = refl

module _ {ℓ} {A : Type ℓ} where
  pub take_of_length-le : (n : ℕ) (xs : List A) → length xs ≤ n → take n xs ≡ xs
  take_of_length-le n [] h = take-nil n
  take_of_length-le (suc n) (y ∷ ys) h =
      let rest : take n ys ≡ ys = take_of_length-le n ys (omega arith) in ap (λ zs. y ∷ zs) rest
  take_of_length-le zero (y ∷ ys) h = absurd (omega arith)

  pub drop_of_length-le : (n : ℕ) (xs : List A) → length xs ≤ n → drop n xs ≡ []
  drop_of_length-le zero [] h = refl
  drop_of_length-le zero (x ∷ xs) h = absurd (omega arith)
  drop_of_length-le (suc n) [] h = refl
  drop_of_length-le (suc n) (x ∷ xs) h = drop_of_length-le n xs (omega arith)

  pub take-append :
      (n : ℕ) (xs ys : List A) → take n (xs ++ ys) ≡ take n xs ++ take (n - length xs) ys
  take-append n [] ys =
      let e : n ≡ n - 0 = omega arith in
      ap (λ k. take k ys) e ∙ ap (λ zs. zs ++ take (n - 0) ys) (sym (take-nil n))
  take-append zero (x ∷ xs) ys =
      let e : 0 ≡ 0 - suc (length xs) = omega arith in ap (λ k. take k ys) e
  take-append (suc n) (x ∷ xs) ys =
      let e : n - length xs ≡ suc n - suc (length xs) = omega arith in
      ap (◌∷◌ x) (take-append n xs ys ∙ ap (λ k. take n xs ++ take k ys) e)

  drop-append : (n : ℕ) (xs ys : List A) → drop n (xs ++ ys) ≡ drop n xs ++ drop (n - length xs) ys
  drop-append n [] ys =
      let e : n ≡ n - 0 = omega arith in
      ap (λ k. drop k ys) e ∙ ap (λ zs. zs ++ drop (n - 0) ys) (sym (drop-nil n))
  drop-append zero (x ∷ xs) ys =
      let e : 0 ≡ 0 - suc (length xs) = omega arith in ap (λ k. x ∷ (xs ++ drop k ys)) e
  drop-append (suc n) (x ∷ xs) ys =
      let e : n - length xs ≡ suc n - suc (length xs) = omega arith in
      drop-append n xs ys ∙ ap (λ k. drop n xs ++ drop k ys) e

  take-append-drop : (n : ℕ) (xs : List A) → take n xs ++ drop n xs ≡ xs
  take-append-drop zero xs = refl
  take-append-drop (suc n) [] = refl
  take-append-drop (suc n) (x ∷ xs) = ap (◌∷◌ x) (take-append-drop n xs)

  pub take-take : (n m : ℕ) (xs : List A) → take n (take m xs) ≡ take (min n m) xs
  take-take zero m xs = let e : 0 ≡ min 0 m = omega arith in ap (λ k. take k xs) e
  take-take (suc n) zero xs = let e : 0 ≡ min (suc n) 0 = omega arith in ap (λ k. take k xs) e
  take-take (suc n) (suc m) [] = sym (take-nil (min (suc n) (suc m)))
  take-take (suc n) (suc m) (x ∷ xs) =
      let e : suc (min n m) ≡ min (suc n) (suc m) = omega arith in
      ap (◌∷◌ x) (take-take n m xs) ∙ ap (λ k. take k (x ∷ xs)) e

  pub drop-drop : (n m : ℕ) (xs : List A) → drop n (drop m xs) ≡ drop (m + n) xs
  drop-drop n zero xs = ap (λ k. drop k xs) (omega arith)
  drop-drop n (suc m) [] = drop-nil n ∙ sym (drop-nil (suc m + n))
  drop-drop n (suc m) (x ∷ xs) =
      let e : suc (m + n) ≡ suc m + n = omega arith in
      drop-drop n m xs ∙ ap (λ k. drop k (x ∷ xs)) e

  drop-take : (n m : ℕ) (xs : List A) → drop n (take m xs) ≡ take (m - n) (drop n xs)
  drop-take zero m xs = let e : m ≡ m - 0 = omega arith in ap (λ k. take k xs) e
  drop-take (suc n) zero xs =
      let e : 0 ≡ 0 - suc n = omega arith in ap (λ k. take k (drop (suc n) xs)) e
  drop-take (suc n) (suc m) [] = sym (take-nil (suc m - suc n))
  drop-take (suc n) (suc m) (x ∷ xs) =
      let e : m - n ≡ suc m - suc n = omega arith in
      drop-take n m xs ∙ ap (λ k. take k (drop n xs)) e

  pub get_elem?-take : (n i : ℕ) (xs : List A) → i < n → get_elem? (take n xs) i ≡ get_elem? xs i
  get_elem?-take zero i xs h = absurd (omega arith)
  get_elem?-take (suc n) i [] h = refl
  get_elem?-take (suc n) zero (x ∷ xs) h = refl
  get_elem?-take (suc n) (suc i) (x ∷ xs) h = get_elem?-take n i xs (omega arith)

  pub get_elem?-drop : (n i : ℕ) (xs : List A) → get_elem? (drop n xs) i ≡ get_elem? xs (n + i)
  get_elem?-drop zero i xs = ap (get_elem? xs) (omega arith)
  get_elem?-drop (suc n) i [] = refl
  get_elem?-drop (suc n) i (x ∷ xs) =
      let e : suc (n + i) ≡ suc n + i = omega arith in
      get_elem?-drop n i xs ∙ ap (get_elem? (x ∷ xs)) e

  pub get_elem?-append_left :
      (i : ℕ) (xs ys : List A) → i < length xs → get_elem? (xs ++ ys) i ≡ get_elem? xs i
  get_elem?-append_left i [] ys h = absurd (omega arith)
  get_elem?-append_left zero (x ∷ xs) ys h = refl
  get_elem?-append_left (suc i) (x ∷ xs) ys h = get_elem?-append_left i xs ys (omega arith)

  pub get_elem?-append_right :
      (i : ℕ) (xs ys : List A)
      → length xs ≤ i
      → get_elem? (xs ++ ys) i ≡ get_elem? ys (i - length xs)
  get_elem?-append_right i [] ys h = ap (get_elem? ys) (omega arith)
  get_elem?-append_right zero (x ∷ xs) ys h = absurd (omega arith)
  get_elem?-append_right (suc i) (x ∷ xs) ys h =
      get_elem?-append_right i xs ys (omega arith) ∙ ap (get_elem? ys) (omega arith)

  -- A read below the length finds an element, and one past it finds none.
  pub get_elem?_lt : (i : ℕ) (xs : List A) → i < length xs → (x : A) × (get_elem? xs i ≡ some x)
  get_elem?_lt i [] h = absurd (omega arith)
  get_elem?_lt zero (x ∷ xs) h = (x, refl)
  get_elem?_lt (suc i) (x ∷ xs) h = get_elem?_lt i xs (omega arith)

  pub get_elem?_ge : (i : ℕ) (xs : List A) → length xs ≤ i → get_elem? xs i ≡ none
  get_elem?_ge i [] h = refl
  get_elem?_ge zero (x ∷ xs) h = absurd (omega arith)
  get_elem?_ge (suc i) (x ∷ xs) h = get_elem?_ge i xs (omega arith)

module _ {ℓ} {A : Type ℓ} where
  pub drop-cons : (n : ℕ) (x : A) (xs : List A) → 0 < n → drop n (x ∷ xs) ≡ drop (n - 1) xs
  drop-cons zero x xs h = absurd (omega arith)
  drop-cons (suc n) x xs h = let e : n ≡ suc n - 1 = omega arith in ap (λ k. drop k xs) e

  pub take-cons : (n : ℕ) (x : A) (xs : List A) → 0 < n → take n (x ∷ xs) ≡ x ∷ take (n - 1) xs
  take-cons zero x xs h = absurd (omega arith)
  take-cons (suc n) x xs h = let e : n ≡ suc n - 1 = omega arith in ap (λ k. x ∷ take k xs) e

  pub get_elem?-cons :
      (n : ℕ) (x : A) (xs : List A) → 0 < n → get_elem? (x ∷ xs) n ≡ get_elem? xs (n - 1)
  get_elem?-cons zero x xs h = absurd (omega arith)
  get_elem?-cons (suc n) x xs h = let e : n ≡ suc n - 1 = omega arith in ap (get_elem? xs) e

  -- A segment that begins behind the first element.
  pub segment-cons :
      (lo hi : ℕ) (x : A) (xs : List A)
      → 0 < lo
      → segment lo hi (x ∷ xs) ≡ segment (lo - 1) (hi - 1) xs
  segment-cons lo hi x xs h =
      let e : hi - lo ≡ hi - 1 - (lo - 1) = omega arith in
      ap (take (hi - lo)) (drop-cons lo x xs h) ∙ ap (λ k. take k (drop (lo - 1) xs)) e

  pub get_elem?-some : (i : ℕ) (xs : List A) {x : A} → get_elem? xs i ≡ some x → i < length xs
  get_elem?-some i [] h = cc
  get_elem?-some zero (x ∷ xs) h = omega arith
  get_elem?-some (suc i) (x ∷ xs) h = omega (arith, get_elem?-some i xs h)

  pub segment-append :
      (lo hi : ℕ) (xs ys : List A)
      → segment lo hi (xs ++ ys) ≡ segment lo hi xs ++ segment (lo - length xs) (hi - length xs) ys
  segment-append lo hi xs ys =
      let e : hi - lo - (length xs - lo) ≡ hi - length xs - (lo - length xs) = omega arith in
      ap (take (hi - lo)) (drop-append lo xs ys)
      ∙ take-append (hi - lo) (drop lo xs) (drop (lo - length xs) ys)
      ∙ ap (λ k. take (hi - lo) (drop lo xs) ++ take (hi - lo - k) (drop (lo - length xs) ys))
          (length-drop lo xs)
      ∙ ap (λ k. take (hi - lo) (drop lo xs) ++ take k (drop (lo - length xs) ys)) e

  pub segment-take :
      (lo hi n : ℕ) (xs : List A) → hi ≤ n → segment lo hi (take n xs) ≡ segment lo hi xs
  segment-take lo hi n xs h =
      let e : min (hi - lo) (n - lo) ≡ hi - lo = omega arith in
      ap (take (hi - lo)) (drop-take lo n xs)
      ∙ take-take (hi - lo) (n - lo) (drop lo xs)
      ∙ ap (λ k. take k (drop lo xs)) e

  -- A segment that would reach past the end stops there.
  pub segment-cut :
      (lo hi hi' : ℕ) (xs : List A)
      → length xs ≤ hi
      → length xs ≤ hi'
      → segment lo hi xs ≡ segment lo hi' xs
  segment-cut lo hi hi' xs h h' =
      take_of_length-le (hi - lo) (drop lo xs) (omega (arith, length-drop lo xs))
      ∙ sym (take_of_length-le (hi' - lo) (drop lo xs) (omega (arith, length-drop lo xs)))

  pub length-segment :
      (lo hi : ℕ) (xs : List A) → hi ≤ length xs → length (segment lo hi xs) ≡ hi - lo
  length-segment lo hi xs h = omega (arith, length-take (hi - lo) (drop lo xs), length-drop lo xs)

module _ {ℓ} {A : Type ℓ} where
  -- `xs[i] = x`, for an index in range.
  abbrev pub set : ℕ → A → List A → List A
  set i x [] = []
  set zero x (y ∷ ys) = x ∷ ys
  set (suc i) x (y ∷ ys) = y ∷ set i x ys

  pub length-set : (i : ℕ) (x : A) (xs : List A) → length (set i x xs) ≡ length xs
  length-set i x [] = refl
  length-set zero x (y ∷ ys) = refl
  length-set (suc i) x (y ∷ ys) = ap suc (length-set i x ys)

  pub get_elem?-set_same :
      (i : ℕ) (x : A) (xs : List A) → i < length xs → get_elem? (set i x xs) i ≡ some x
  get_elem?-set_same i x [] h = absurd (omega arith)
  get_elem?-set_same zero x (y ∷ ys) h = refl
  get_elem?-set_same (suc i) x (y ∷ ys) h = get_elem?-set_same i x ys (omega arith)

  pub get_elem?-set_other :
      (i j : ℕ) (x : A) (xs : List A) → i ≢ j → get_elem? (set i x xs) j ≡ get_elem? xs j
  get_elem?-set_other i j x [] n = refl
  get_elem?-set_other zero zero x (y ∷ ys) n = absurd (n refl)
  get_elem?-set_other zero (suc j) x (y ∷ ys) n = refl
  get_elem?-set_other (suc i) zero x (y ∷ ys) n = refl
  get_elem?-set_other (suc i) (suc j) x (y ∷ ys) n =
      get_elem?-set_other i j x ys (λ e. n (ap suc e))
