-- ===== src/Types/UrlsMap.antt =====
-- pkg/types/urlsmap.go: the text of an initial cluster, "name=url,name=url". A string is the list of
-- its bytes.
pub mod Rounds
pub mod Parsing
use etcd_cr.Common.{
  ℕ, zero, suc, ◌+◌, Bool, true, false, Option, none, some, List, [], ◌∷◌, ◌++◌, ltb, ◌==◌,
  if◌then◌else◌, length,
}

abbrev pub Bytes : Type 0
Bytes = List ℕ

abbrev pub same_text : Bytes → Bytes → Bool
same_text [] [] = true
same_text [] (y ∷ ys) = false
same_text (x ∷ xs) [] = false
same_text (x ∷ xs) (y ∷ ys) = if x == y then same_text xs ys else false

-- `i := strings.Index(s, c)`, with `s[:i]` and `s[i+1:]`.
unfoldable pub cut : ℕ → Bytes → Option (Bytes × Bytes)
cut c [] = none
cut c (x ∷ xs) =
    if x == c
    then some ([], xs)
    else elim (cut c xs) [ none ↦ none | some parts ↦ some (x ∷ parts.0, parts.1) ]

-- `m[key] = append(m[key], value)`
abbrev pub append_value : Bytes → Bytes → List (Bytes × List Bytes) → List (Bytes × List Bytes)
append_value key value [] = (key, value ∷ []) ∷ []
append_value key value ((k, vs) ∷ m) =
    if same_text k key then (k, vs ++ value ∷ []) ∷ m else (k, vs) ∷ append_value key value m

-- The characters `,` and `=`.
abbrev pub comma : ℕ
comma = 44

abbrev pub equals_sign : ℕ
equals_sign = 61

-- The rest of one round, for the text up to a `,`.
unfoldable pub add_item : Bytes → List (Bytes × List Bytes) → List (Bytes × List Bytes)
add_item [] m = m
add_item (c ∷ cs) m = elim (cut equals_sign (c ∷ cs)) [
  | none ↦ append_value (c ∷ cs) [] m
  | some parts ↦ append_value parts.0 parts.1 m
]

-- The loop of `parse`, with `none` when the rounds run out.
unfoldable pub parse_loop :
    ℕ → Bytes → List (Bytes × List Bytes) → Option (List (Bytes × List Bytes))
parse_loop rounds [] m = some m
parse_loop zero (c ∷ cs) m = none
parse_loop (suc rounds) (c ∷ cs) m = elim (cut comma (c ∷ cs)) [
  | none ↦ some (add_item (c ∷ cs) m)
  | some parts ↦ parse_loop rounds parts.1 (add_item parts.0 m)
]

-- `parse`: every round takes at least one character.
unfoldable pub parse : Bytes → Option (List (Bytes × List Bytes))
parse s = parse_loop (length s) s []
