-- ===== src/Types/Urls.antt =====
-- pkg/types/urls.go, and `NewURLsMap` of urlsmap.go. `strings.TrimSpace`, `url.Parse` and
-- `net.SplitHostPort` are Go's, and stand as parameters; a URL is the parts that are looked at, and
-- its text.
pub mod Checks
use etcd_cr.Common.{
  ℕ, Bool, true, false, ◌||◌, not, Option, none, some, List, [], ◌∷◌, map, length, ltb, ◌==◌,
  if◌then◌else◌, Result, ok, err, panic, ◌>>=◌, ◌>>◌, no_valid_urls, bad_scheme, no_host_port,
  url_has_path,
}
use etcd_cr.Types.UrlsMap.{Bytes, same_text, parse}

pub record Url : Type 0 where
  pub scheme : Bytes
  pub host : Bytes
  pub path : Bytes
  pub text : Bytes

-- The schemes "http", "https", "unix" and "unixs".
abbrev pub known_scheme : Bytes → Bool
known_scheme s =
    same_text s (104 ∷ 116 ∷ 116 ∷ 112 ∷ [])
    || same_text s (104 ∷ 116 ∷ 116 ∷ 112 ∷ 115 ∷ [])
    || same_text s (117 ∷ 110 ∷ 105 ∷ 120 ∷ [])
    || same_text s (117 ∷ 110 ∷ 105 ∷ 120 ∷ 115 ∷ [])

-- `<` on strings.
abbrev pub less_text : Bytes → Bytes → Bool
less_text s [] = false
less_text [] (y ∷ ys) = true
less_text (x ∷ xs) (y ∷ ys) = if ltb x y then true else if ltb y x then false else less_text xs ys

-- `(*URLs).Sort`
abbrev pub insert_url : Url → List Url → List Url
insert_url u [] = u ∷ []
insert_url u (v ∷ vs) = if less_text v.text u.text then v ∷ insert_url u vs else u ∷ v ∷ vs

unfoldable pub sort_urls : List Url → List Url
sort_urls [] = []
sort_urls (u ∷ us) = insert_url u (sort_urls us)

abbrev pub url_text : Url → Bytes
url_text u = u.text

-- `StringSlice`
abbrev pub string_slice : List Url → List Bytes
string_slice = map url_text

module _ (trim_space : Bytes → Bytes) (parse_url : Bytes → Result Url)
    (is_host_port : Bytes → Bool) where
  -- The round of `NewURLs` for one string.
  unfoldable pub check_url : Bytes → Result Url
  check_url s = do
    u ← parse_url (trim_space s)
    if known_scheme u.scheme then ok tt else err bad_scheme
    if is_host_port u.host then ok tt else err no_host_port
    if length u.path == 0 then ok tt else err url_has_path
    ok u

  unfoldable pub check_urls : List Bytes → Result (List Url)
  check_urls [] = ok []
  check_urls (s ∷ strs) = do u ← check_url s; us ← check_urls strs; ok (u ∷ us)

  -- `NewURLs`
  unfoldable pub new_urls : List Bytes → Result (List Url)
  new_urls strs = do
    if length strs == 0 then err no_valid_urls else ok tt
    us ← check_urls strs
    ok (sort_urls us)

  -- `MustNewURLs`
  unfoldable pub must_new_urls : List Bytes → Result (List Url)
  must_new_urls strs = elim (new_urls strs) [ ok us ↦ ok us | err e ↦ panic | panic ↦ panic ]

  -- The loop of `NewURLsMap`, over the entries of the map in the order of the run.
  unfoldable pub urls_of_names : List (Bytes × List Bytes) → Result (List (Bytes × List Url))
  urls_of_names [] = ok []
  urls_of_names ((name, urls) ∷ m) = do
    us ← new_urls urls
    rest ← urls_of_names m
    ok ((name, us) ∷ rest)

  -- `NewURLsMap`
  unfoldable pub new_urls_map : Bytes → Result (List (Bytes × List Url))
  new_urls_map s = elim (parse s) [ none ↦ panic | some m ↦ urls_of_names m ]
