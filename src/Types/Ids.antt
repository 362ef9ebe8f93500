-- ===== src/Types/Ids.antt =====
-- An id of pkg/types/id.go comes back from its text.
use mathlib.Core.Logic.{dite}
use mathlib.Core.WellFounded.{Acc}
use native.Mathlib.Decide.{dec_lt}
use etcd_cr.Common.{
  ℕ, ◌+◌, ◌*◌, ◌/◌, ◌%◌, ◌<◌, ◌≡◌, refl, ap, ◌∙◌, Option, none, some, false, List, [], ◌∷◌, ◌++◌,
  arith, length, length-append, u64_mod, lt→leb_false, ne→==_false, ◌≢◌, Error,
}
use etcd_cr.Common.Maps.{has, has-append}
use etcd_cr.Common.Order.{lt_wf}
use etcd_cr.Types.{
  Round, goes, fails, parse_digit, hex_digit, hex_acc, id_string, digit_value, parse_from,
  id_from_string, div16-below,
}

digit_value-hex_digit : (d : ℕ) → d < 16 → digit_value (hex_digit d) ≡ some d
digit_value-hex_digit d h = ground arith

parse_digit-hex_digit :
    (n d : ℕ) → d < 16 → n < 1152921504606846976 → parse_digit n (hex_digit d) ≡ goes (n * 16 + d)
unfolding parse_digit
parse_digit-hex_digit n d h k =
    rw
      (
        digit_value-hex_digit d h,
        parse_digit,
        lt→leb_false 16 d h,
        lt→leb_false 1152921504606846976 n k,
      )
      refl

parse_from-digit :
    (n d : ℕ)
    → d < 16
    → n < 1152921504606846976
    → parse_from n (hex_digit d ∷ []) ≡ (n * 16 + d, none)
unfolding parse_from
parse_from-digit n d h k = rw (parse_digit-hex_digit n d h k, parse_from) refl

-- Digits that parse well, and more digits.
parse_from-append :
    (n m : ℕ) (cs ds : List ℕ)
    → parse_from n cs ≡ (m, none)
    → parse_from n (cs ++ ds) ≡ parse_from m ds
unfolding parse_from
parse_from-append n m [] ds h = ap (λ r. parse_from r.0 ds) h
parse_from-append n m (c ∷ cs) ds h =
    at_digit (parse_digit n c) (λ k. parse_from-append k m cs ds) h
  where
    at_digit :
        (r : Round)
        → ((k : ℕ) → parse_from k cs ≡ (m, none) → parse_from k (cs ++ ds) ≡ parse_from m ds)
        → ◌≡◌ {A = ℕ × Option Error}
            (elim r [ goes k ↦ parse_from k cs | fails v e ↦ (v, some e) ])
            (m, none)
        → ◌≡◌ {A = ℕ × Option Error}
            (elim r [ goes k ↦ parse_from k (cs ++ ds) | fails v e ↦ (v, some e) ])
            (parse_from m ds)
    at_digit (goes k) go h = go k h
    at_digit (fails v e) go h = let e = ap (λ r. r.1) h in cc

last_digit :
    (v : ℕ) (d : Dec (15 < v)) (f : 15 < v → List ℕ)
    → v < u64_mod
    → ((h : 15 < v) → parse_from 0 (f h) ≡ (v / 16, none))
    → parse_from 0 (dite d (λ h. f h ++ hex_digit (v % 16) ∷ []) (λ _. hex_digit v ∷ []))
      ≡ (v, none)
last_digit v (yes h) f w e =
    parse_from-append 0 (v / 16) (f h) (hex_digit (v % 16) ∷ []) (e h)
    ∙ parse_from-digit (v / 16) (v % 16) (omega arith) (omega arith)
    ∙ ap (λ n. (n, none)) (omega arith)
last_digit v (no n) f w e =
    parse_from-digit 0 v (omega arith) (omega arith) ∙ ap (λ n. (n, none)) (omega arith)

parse_from-hex_acc : (v : ℕ) (a : Acc ◌<◌ v) → v < u64_mod → parse_from 0 (hex_acc v a) ≡ (v, none)
unfolding hex_acc
parse_from-hex_acc v (Acc.intro _ smaller) w =
    last_digit v (dec_lt 15 v) (λ h. hex_acc (v / 16) (smaller (v / 16) (div16-below v h))) w
      (λ h. parse_from-hex_acc (v / 16) (smaller (v / 16) (div16-below v h)) (omega arith))

-- A text of an id has a digit.
some_digit :
    (v : ℕ) (d : Dec (15 < v)) (f : 15 < v → List ℕ)
    → length (dite d (λ h. f h ++ hex_digit (v % 16) ∷ []) (λ _. hex_digit v ∷ [])) ≢ 0
some_digit v (yes h) f e = omega (arith, length-append (f h) (hex_digit (v % 16) ∷ []))
some_digit v (no n) f e = omega arith

length-hex_acc : (v : ℕ) (a : Acc ◌<◌ v) → length (hex_acc v a) ≢ 0
unfolding hex_acc
length-hex_acc v (Acc.intro _ smaller) =
    some_digit v (dec_lt 15 v) (λ h. hex_acc (v / 16) (smaller (v / 16) (div16-below v h)))

-- `IDFromString` reads back the text that `ID.String` makes of an id, without an error.
pub id_from_string-id_string : (v : ℕ) → v < u64_mod → id_from_string (id_string v) ≡ (v, none)
unfolding id_from_string id_string
id_from_string-id_string v w =
    rw (ne→==_false (length (hex_acc v (lt_wf.apply v))) 0 (length-hex_acc v (lt_wf.apply v)))
      (parse_from-hex_acc v (lt_wf.apply v) w)

hex_digit-slash : (d : ℕ) → hex_digit d ≢ 47
hex_digit-slash d = λ e. ground arith

-- No digit is a `/`.
has-slash_digits :
    (v : ℕ) (d : Dec (15 < v)) (f : 15 < v → List ℕ)
    → ((h : 15 < v) → has 47 (f h) ≡ false)
    → has 47 (dite d (λ h. f h ++ hex_digit (v % 16) ∷ []) (λ _. hex_digit v ∷ [])) ≡ false
has-slash_digits v (yes h) f e =
    has-append 47 (f h) (hex_digit (v % 16) ∷ [])
    ∙ (let old = e h in ground (arith, hex_digit-slash (v % 16)))
has-slash_digits v (no n) f e = ground (arith, hex_digit-slash v)

has-hex_acc : (v : ℕ) (a : Acc ◌<◌ v) → has 47 (hex_acc v a) ≡ false
unfolding hex_acc
has-hex_acc v (Acc.intro _ smaller) =
    has-slash_digits v (dec_lt 15 v) (λ h. hex_acc (v / 16) (smaller (v / 16) (div16-below v h)))
      (λ h. has-hex_acc (v / 16) (smaller (v / 16) (div16-below v h)))

pub has-id_string : (v : ℕ) → has 47 (id_string v) ≡ false
unfolding id_string
has-id_string v = has-hex_acc v (lt_wf.apply v)
