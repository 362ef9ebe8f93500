-- ===== src/Flags/Splitting.antt =====
-- The text of a list of strings in pkg/flags/strings.go.
use etcd_cr.Common.{
  ℕ, ◌≡◌, refl, sym, ap, ◌∙◌, Bool, true, false, List, [], ◌∷◌, ◌==◌, if◌then◌else◌, Bool-cases,
  inl, inr, ==_iff, ◌≢◌,
}
use etcd_cr.Types.UrlsMap.{Bytes, comma}
use etcd_cr.Flags.{onto_first, split, join, set_strings, strings_string}

onto_first-some : (c : ℕ) (ts : List Bytes) → ts ≢ [] → onto_first c ts ≢ []
onto_first-some c [] n h = n refl
onto_first-some c (t ∷ ts) n h = cc

split-some : (s : Bytes) → split s ≢ []
unfolding split
split-some [] = λ h. cc
split-some (c ∷ s) = at_char (c == comma) (split s) (split-some s)
  where
    at_char : (b : Bool) (ts : List Bytes) → ts ≢ [] → (if b then [] ∷ ts else onto_first c ts) ≢ []
    at_char true ts n h = cc
    at_char false ts n h = onto_first-some c ts n h

join-onto_first : (c : ℕ) (ts : List Bytes) → ts ≢ [] → join (onto_first c ts) ≡ c ∷ join ts
unfolding join
join-onto_first c [] n = absurd (n refl)
join-onto_first c (t ∷ []) n = refl
join-onto_first c (t ∷ u ∷ ts) n = refl

join-nil : (ts : List Bytes) → ts ≢ [] → join ([] ∷ ts) ≡ comma ∷ join ts
unfolding join
join-nil [] n = absurd (n refl)
join-nil (t ∷ ts) n = refl

-- `String` gives back the text of `Set`, whatever it is.
strings_string-set_strings : (s : Bytes) → strings_string (set_strings s) ≡ s
unfolding strings_string set_strings split join
strings_string-set_strings [] = refl
strings_string-set_strings (c ∷ s) = elim (Bool-cases (c == comma)) [
  | inl e ↦
      let same = (==_iff c comma).0 e in
      rw (e) (
        join-nil (split s) (split-some s)
        ∙ ap (◌∷◌ comma) (strings_string-set_strings s)
        ∙ ap (λ d. d ∷ s) (sym same))
  | inr e ↦
      rw (e)
        (join-onto_first c (split s) (split-some s) ∙ ap (◌∷◌ c) (strings_string-set_strings s))
]
