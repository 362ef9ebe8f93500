-- ===== src/Types/UrlsMap/Parsing.antt =====
-- `parse` of pkg/types/urlsmap.go ends, and reads what a list of names and URLs prints.
use etcd_cr.Common.{
  ℕ, zero, suc, ◌≤◌, ◌<◌, ◌≡◌, refl, sym, ap, ◌∙◌, Bool, true, false, none, some, List, [], ◌∷◌,
  ◌++◌, append-nil, append_assoc, Bool-cases, inl, inr, arith, if◌then◌else◌, length, length-append,
}
use etcd_cr.Common.Maps.{has, has-append}
use etcd_cr.Types.UrlsMap.{
  comma, equals_sign, Bytes, same_text, cut, append_value, add_item, parse_loop, parse,
}
use etcd_cr.Types.UrlsMap.Rounds.{cut-append, cut-none}

-- The text of a list of names and URLs.
abbrev pub item : Bytes × Bytes → Bytes
item e = e.0 ++ equals_sign ∷ e.1

abbrev pub more_text : List (Bytes × Bytes) → Bytes
more_text [] = []
more_text (e ∷ es) = comma ∷ (item e ++ more_text es)

abbrev pub text : List (Bytes × Bytes) → Bytes
text [] = []
text (e ∷ es) = item e ++ more_text es

-- The values of each name, in the order of the list.
abbrev pub group : List (Bytes × Bytes) → List (Bytes × List Bytes) → List (Bytes × List Bytes)
group [] m = m
group (e ∷ es) m = group es (append_value e.0 e.1 m)

-- No name has a `,` or a `=`, and no URL has a `,`.
abbrev pub Separable : List (Bytes × Bytes) → Type 0
Separable [] = Unit {0}
Separable (e ∷ es) =
    (has equals_sign e.0 ≡ false) × (has comma e.0 ≡ false) × (has comma e.1 ≡ false) × Separable es

add_item-item :
    (name url : Bytes) (m : List (Bytes × List Bytes))
    → has equals_sign name ≡ false
    → add_item (name ++ equals_sign ∷ url) m ≡ append_value name url m
unfolding add_item cut
add_item-item [] url m n = refl
add_item-item (c ∷ cs) url m n =
    ap
      (λ o. elim o [
        | none ↦ append_value ((c ∷ cs) ++ equals_sign ∷ url) [] m
        | some parts ↦ append_value parts.0 parts.1 m
      ])
      (cut-append equals_sign (c ∷ cs) url n)

-- A round on a text that has some character and no `,`.
round_last :
    (rounds : ℕ) (t : Bytes) (m : List (Bytes × List Bytes))
    → 0 < length t
    → has comma t ≡ false
    → parse_loop (suc rounds) t m ≡ some (add_item t m)
unfolding parse_loop
round_last rounds [] m h n = absurd (omega arith)
round_last rounds (c ∷ cs) m h n = rw (cut-none comma (c ∷ cs) n, parse_loop) refl

round_more :
    (rounds : ℕ) (t rest : Bytes) (m : List (Bytes × List Bytes))
    → 0 < length t
    → has comma t ≡ false
    → parse_loop (suc rounds) (t ++ comma ∷ rest) m ≡ parse_loop rounds rest (add_item t m)
unfolding parse_loop
round_more rounds [] rest m h n = absurd (omega arith)
round_more rounds (c ∷ cs) rest m h n = rw (cut-append comma (c ∷ cs) rest n, parse_loop) refl

length-item : (e : Bytes × Bytes) → 0 < length (item e)
length-item e = omega (arith, length-append e.0 (equals_sign ∷ e.1))

has-item :
    (e : Bytes × Bytes) → has comma e.0 ≡ false → has comma e.1 ≡ false → has comma (item e) ≡ false
has-item e n u = ground (arith, has-append comma e.0 (equals_sign ∷ e.1))

parse_loop-text :
    (es : List (Bytes × Bytes)) (rounds : ℕ) (m : List (Bytes × List Bytes))
    → Separable es
    → length (text es) ≤ rounds
    → parse_loop rounds (text es) m ≡ some (group es m)
unfolding parse_loop
parse_loop-text [] rounds m s h = refl
parse_loop-text (e ∷ es) zero m s h =
    absurd (omega (arith, length-item e, length-append (item e) (more_text es)))
parse_loop-text (e ∷ []) (suc rounds) m s h =
    ap (λ t. parse_loop (suc rounds) t m) (append-nil (item e))
    ∙ round_last rounds (item e) m (length-item e) (has-item e s.1 s.2)
    ∙ ap some (add_item-item e.0 e.1 m s.0)
parse_loop-text (e ∷ e' ∷ es) (suc rounds) m s h =
    round_more rounds (item e) (text (e' ∷ es)) m (length-item e) (has-item e s.1 s.2)
    ∙ ap (parse_loop rounds (text (e' ∷ es))) (add_item-item e.0 e.1 m s.0)
    ∙ parse_loop-text (e' ∷ es) rounds (append_value e.0 e.1 m) s.3
        (omega (arith, length-item e, length-append (item e) (more_text (e' ∷ es))))

pub same_text_sound : (xs ys : Bytes) → same_text xs ys ≡ true → xs ≡ ys
same_text_sound [] [] h = refl
same_text_sound [] (y ∷ ys) h = cc
same_text_sound (x ∷ xs) [] h = cc
same_text_sound (x ∷ xs) (y ∷ ys) h = ground (arith, same_text_sound xs ys)

pub same_text_refl : (xs : Bytes) → same_text xs xs ≡ true
same_text_refl [] = refl
same_text_refl (x ∷ xs) = ground (arith, same_text_refl xs)

-- The values of a name, none for a name that the map does not have.
abbrev pub find : Bytes → List (Bytes × List Bytes) → List Bytes
find name [] = []
find name ((k, vs) ∷ m) = if same_text k name then vs else find name m

-- The URLs of a name, in the order of the list.
abbrev pub urls_of : Bytes → List (Bytes × Bytes) → List Bytes
urls_of name [] = []
urls_of name (e ∷ es) = if same_text e.0 name then e.1 ∷ urls_of name es else urls_of name es

-- Two names are not both the name looked for.
same_names :
    (k key name : Bytes)
    → same_text k key ≡ false
    → same_text k name ≡ true
    → same_text key name ≡ false
same_names k key name differs same = elim (Bool-cases (same_text key name)) [
  | inl both ↦
      let e : k ≡ key = same_text_sound k name same ∙ sym (same_text_sound key name both) in
      let f : same_text key key ≡ false = ap (λ t. same_text t key) (sym e) ∙ differs in
      let g = same_text_refl key in cc
  | inr n ↦ n
]

find-append_value :
    (name key value : Bytes) (m : List (Bytes × List Bytes))
    → find name (append_value key value m)
      ≡ (if same_text key name then find name m ++ value ∷ [] else find name m)
find-append_value name key value [] = ground arith
find-append_value name key value ((k, vs) ∷ m) = elim (Bool-cases (same_text k key)) [
  | inl same ↦
      let e : same_text k name ≡ same_text key name =
        ap (λ t. same_text t name) (same_text_sound k key same) in
      ground arith
  | inr differs ↦ ground (arith, find-append_value name key value m, same_names k key name differs)
]

find-group :
    (name : Bytes) (es : List (Bytes × Bytes)) (m : List (Bytes × List Bytes))
    → find name (group es m) ≡ find name m ++ urls_of name es
find-group name [] m = sym (append-nil (find name m))
find-group name (e ∷ es) m =
    find-group name es (append_value e.0 e.1 m)
    ∙ ap (λ vs. vs ++ urls_of name es) (find-append_value name e.0 e.1 m)
    ∙ joined (same_text e.0 name)
  where
    joined :
        (b : Bool)
        → (if b then find name m ++ e.1 ∷ [] else find name m) ++ urls_of name es
          ≡ find name m ++ (if b then e.1 ∷ urls_of name es else urls_of name es)
    joined true = append_assoc (find name m) (e.1 ∷ []) (urls_of name es)
    joined false = refl

pub parse-group : (es : List (Bytes × Bytes)) → Separable es → parse (text es) ≡ some (group es [])
unfolding parse
parse-group es s = parse_loop-text es (length (text es)) [] s (omega arith)

-- `parse` reads back what a list of names and URLs prints as "name=url,name=url", where no name has
-- a `,` or a `=` and no URL has a `,`: it ends, and each name has the URLs of the list, in its order.
pub parse-text :
    (es : List (Bytes × Bytes))
    → Separable es
    → (out : List (Bytes × List Bytes)) × (parse (text es) ≡ some out)
      × ((name : Bytes) → find name out ≡ urls_of name es)
parse-text es s = (group es [], parse-group es s, λ name. find-group name es [])
