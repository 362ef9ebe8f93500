-- ===== src/Types.antt =====
-- pkg/types/id.go: ids as hexadecimal text, the list of its character codes. `strconv.FormatUint` and
-- `strconv.ParseUint` are written out for base 16 and 64 bits.
pub mod Ids
pub mod UrlsMap
pub mod Urls
use mathlib.Core.Logic.{dite}
use mathlib.Core.WellFounded.{Acc}
use native.Mathlib.Decide.{dec_lt}
use etcd_cr.Common.{
  ℕ, ◌+◌, ◌-◌, ◌*◌, ◌/◌, ◌%◌, ◌^◌, ◌<◌, ◌≡◌, Option, none, some, List, [], ◌∷◌, ◌++◌, arith, ltb,
  leb, if◌then◌else◌, ◌&&◌, length, ◌==◌, Error, invalid_syntax, value_out_of_range,
}
use etcd_cr.Common.Order.{lt_wf}

abbrev pub hex_digit : ℕ → ℕ
hex_digit d = if ltb d 10 then 48 + d else 87 + d

pub div16-below : (v : ℕ) → 15 < v → v / 16 < v
div16-below v h = omega arith

unfoldable pub hex_acc : (v : ℕ) → Acc ◌<◌ v → List ℕ
hex_acc v (Acc.intro _ smaller) =
    dite (dec_lt 15 v)
      (λ h. hex_acc (v / 16) (smaller (v / 16) (div16-below v h)) ++ hex_digit (v % 16) ∷ [])
      (λ _. hex_digit v ∷ [])

-- `ID.String`
unfoldable pub id_string : ℕ → List ℕ
unfolding hex_acc lt_wf dec_lt
id_string v = hex_acc v (lt_wf.apply v)

-- The digit of a character, up to 35.
abbrev pub digit_value : ℕ → Option ℕ
digit_value c =
    if leb 48 c && leb c 57
    then some (c - 48)
    else if leb 97 c && leb c 122
    then some (c - 87)
    else if leb 65 c && leb c 90
    then some (c - 55)
    else none

-- One round of `ParseUint`: the number so far, or the value and the error that the call returns.
pub data Round : Type 0 where
  goes : ℕ → Round
  fails : ℕ → Error → Round

unfoldable pub parse_digit : ℕ → ℕ → Round
parse_digit n c = elim (digit_value c) [
  | none ↦ fails 0 invalid_syntax
  | some d ↦
      if leb 16 d
      then fails 0 invalid_syntax
      else if leb (2 ^ 60) n
      then fails (2 ^ 64 - 1) value_out_of_range
      else goes (n * 16 + d)
]

-- The loop of `ParseUint`.
unfoldable pub parse_from : ℕ → List ℕ → ℕ × Option Error
parse_from n [] = (n, none)
parse_from n (c ∷ cs) = elim (parse_digit n c) [
  | goes m ↦ parse_from m cs
  | fails v e ↦ (v, some e)
]

-- `IDFromString`
unfoldable pub id_from_string : List ℕ → ℕ × Option Error
id_from_string s = if length s == 0 then (0, some invalid_syntax) else parse_from 0 s
