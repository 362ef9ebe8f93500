-- ===== src/Flags.antt =====
-- The values of flags in pkg/flags: strings.go, selective_string.go, unique_strings.go and
-- unique_urls.go. A `map[string]struct{}` is the list of its keys. The functions that look a flag up
-- in a `flag.FlagSet` are left out.
pub mod Splitting
pub mod Agreement
use etcd_cr.Common.{
  ℕ, Bool, true, false, ◌||◌, Option, none, some, List, [], ◌∷◌, ◌++◌, ◌==◌, if◌then◌else◌, Error,
  Result, ok, err, panic, ◌>>=◌, or_panic, must, length, invalid_value,
}
use etcd_cr.Types.UrlsMap.{Bytes, comma, same_text}
use etcd_cr.Types.Urls.{Url, string_slice, new_urls}
use etcd_cr.Membership.{sort_strings}

-- `strings.Split(s, ",")`
abbrev pub onto_first : ℕ → List Bytes → List Bytes
onto_first c [] = []
onto_first c (t ∷ ts) = (c ∷ t) ∷ ts

unfoldable pub split : Bytes → List Bytes
split [] = [] ∷ []
split (c ∷ s) = if c == comma then [] ∷ split s else onto_first c (split s)

-- `strings.Join(ts, ",")`
unfoldable pub join : List Bytes → Bytes
join [] = []
join (t ∷ []) = t
join (t ∷ u ∷ ts) = t ++ comma ∷ join (u ∷ ts)

abbrev pub contains : Bytes → List Bytes → Bool
contains s [] = false
contains s (t ∷ ts) = same_text t s || contains s ts

-- `m[s] = struct{}{}`
abbrev pub include : Bytes → List Bytes → List Bytes
include s ts = if contains s ts then ts else s ∷ ts

abbrev pub include_all : List Bytes → List Bytes → List Bytes
include_all [] ts = ts
include_all (s ∷ ss) ts = include_all ss (include s ts)

-- `StringsValue`
abbrev pub StringsValue : Type 0
StringsValue = List Bytes

-- `(*StringsValue).Set` and `String`
unfoldable pub set_strings : Bytes → StringsValue
set_strings s = split s

unfoldable pub strings_string : StringsValue → Bytes
strings_string ss = join ss

-- `NewStringsValue`
unfoldable pub new_strings_value : Bytes → StringsValue
new_strings_value [] = []
new_strings_value (c ∷ s) = set_strings (c ∷ s)

pub record SelectiveStringValue : Type 0 where
  pub v : Bytes
  pub valids : List Bytes

-- `NewSelectiveStringValue`: it panics without a value.
unfoldable pub new_selective_string_value : List Bytes → Result SelectiveStringValue
new_selective_string_value [] = panic
new_selective_string_value (v ∷ vs) = ok (record { v = v; valids = include_all (v ∷ vs) [] })

-- `(*SelectiveStringValue).Set`
unfoldable pub set_selective : Bytes → SelectiveStringValue → Result SelectiveStringValue
set_selective s ss = if contains s ss.valids then ok (record ss { v = s }) else err invalid_value

-- `Valids`
unfoldable pub valids_of : SelectiveStringValue → List Bytes
valids_of ss = sort_strings ss.valids

-- `UniqueStringsValue`
pub record UniqueStringsValue : Type 0 where
  pub values : List Bytes

-- `(*UniqueStringsValue).Set` and `String`
unfoldable pub set_unique_strings : Bytes → UniqueStringsValue
set_unique_strings s = record { values = include_all (split s) [] }

unfoldable pub unique_strings_string : UniqueStringsValue → Bytes
unique_strings_string us = join (sort_strings us.values)

-- `NewUniqueStringsValue`
unfoldable pub new_unique_strings_value : Bytes → UniqueStringsValue
new_unique_strings_value [] = record { values = [] }
new_unique_strings_value (c ∷ s) = set_unique_strings (c ∷ s)

pub record UniqueUrls : Type 0 where
  pub values : List Bytes
  pub uss : List Url
  pub allowed : List Bytes

module _ (trim_space : Bytes → Bytes) (parse_url : Bytes → Result Url)
    (is_host_port : Bytes → Bool) where
  -- `(*UniqueURLs).Set`
  unfoldable pub set_urls : Bytes → UniqueUrls → Result UniqueUrls
  set_urls s us =
      if contains s us.values
      then ok us
      else if contains s us.allowed
      then ok (record us { values = include s us.values })
      else (do
        ss ← new_urls trim_space parse_url is_host_port (split s)
        ok (record us { values = include_all (string_slice ss) []; uss = ss }))

  -- `NewUniqueURLsWithExceptions`
  unfoldable pub new_unique_urls_with_exceptions : Bytes → List Bytes → Result UniqueUrls
  new_unique_urls_with_exceptions [] exceptions =
      ok (record { values = []; uss = []; allowed = include_all exceptions [] })
  new_unique_urls_with_exceptions (c ∷ s) exceptions =
      must
        (set_urls (c ∷ s) (record { values = []; uss = []; allowed = include_all exceptions [] }))

-- `(*UniqueURLs).String`
unfoldable pub unique_urls_string : UniqueUrls → Bytes
unique_urls_string us = join (sort_strings us.values)
