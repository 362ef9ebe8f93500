-- ===== src/Types/UrlsMap/Rounds.antt =====
-- The rounds of the loop of `parse` in pkg/types/urlsmap.go.
use etcd_cr.Common.{
  ℕ, zero, suc, ◌≤◌, ◌<◌, ◌≡◌, refl, ap, Bool, true, false, Option, none, some, List, [], ◌∷◌, ◌++◌,
  arith, ◌==◌, if◌then◌else◌, length,
}
use etcd_cr.Common.Maps.{has}
use etcd_cr.Types.UrlsMap.{comma, Bytes, cut, add_item, parse_loop, parse}

pub cut-append : (c : ℕ) (xs ys : Bytes) → has c xs ≡ false → cut c (xs ++ c ∷ ys) ≡ some (xs, ys)
unfolding cut
cut-append c [] ys n = ground arith
cut-append c (x ∷ xs) ys n = ground (arith, cut-append c xs ys)

pub cut-none : (c : ℕ) (xs : Bytes) → has c xs ≡ false → cut c xs ≡ none
unfolding cut
cut-none c [] n = refl
cut-none c (x ∷ xs) n = ground (arith, cut-none c xs)

-- What stands behind the character is shorter than the text.
length-cut :
    (c : ℕ) (xs : Bytes) (parts : Bytes × Bytes)
    → cut c xs ≡ some parts
    → length parts.1 < length xs
unfolding cut
length-cut c [] parts h = cc
length-cut c (x ∷ xs) parts h = at_first (x == c) (cut c xs) (length-cut c xs) h
  where
    at_first :
        (b : Bool) (o : Option (Bytes × Bytes))
        → ((p : Bytes × Bytes) → o ≡ some p → length p.1 < length xs)
        → ◌≡◌ {A = Option (Bytes × Bytes)}
            (if b then some ([], xs) else elim o [ none ↦ none | some p ↦ some (x ∷ p.0, p.1) ])
            (some parts)
        → length parts.1 < suc (length xs)
    at_first true o shorter h =
        let e : length xs ≡ length parts.1 =
          ap (λ o. elim o [ none ↦ 0 | some p ↦ length p.1 ]) h in
        omega arith
    at_first false none shorter h = cc
    at_first false (some p) shorter h =
        let e : length p.1 ≡ length parts.1 =
          ap (λ o. elim o [ none ↦ 0 | some p ↦ length p.1 ]) h in
        omega (arith, shorter p refl)

parse_loop-ends :
    (rounds : ℕ) (s : Bytes) (m : List (Bytes × List Bytes))
    → length s ≤ rounds
    → (out : List (Bytes × List Bytes)) × (parse_loop rounds s m ≡ some out)
unfolding parse_loop
parse_loop-ends rounds [] m h = (m, refl)
parse_loop-ends zero (c ∷ cs) m h = absurd (omega arith)
parse_loop-ends (suc rounds) (c ∷ cs) m h =
    at_comma (cut comma (c ∷ cs)) (length-cut comma (c ∷ cs))
      (λ s m' short. parse_loop-ends rounds s m' short)
  where
    at_comma :
        (o : Option (Bytes × Bytes))
        → ((p : Bytes × Bytes) → o ≡ some p → length p.1 < length (c ∷ cs))
        → ((s : Bytes) (m' : List (Bytes × List Bytes))
            → length s ≤ rounds
            → (out : List (Bytes × List Bytes)) × (parse_loop rounds s m' ≡ some out))
        → (out : List (Bytes × List Bytes)) × (elim o [
          | none ↦ some (add_item (c ∷ cs) m)
          | some p ↦ parse_loop rounds p.1 (add_item p.0 m)
        ]
            ≡ some out)
    at_comma none shorter go = (add_item (c ∷ cs) m, refl)
    at_comma (some p) shorter go = go p.1 (add_item p.0 m) (omega (arith, shorter p refl))

-- The loop of `parse` ends on every text: as many rounds as it has characters are enough.
pub parse-ends : (s : Bytes) → (out : List (Bytes × List Bytes)) × (parse s ≡ some out)
unfolding parse
parse-ends s = parse_loop-ends (length s) s [] (omega arith)
