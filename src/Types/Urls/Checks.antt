-- ===== src/Types/Urls/Checks.antt =====
-- What `NewURLs` of pkg/types/urls.go accepts.
use etcd_cr.Common.{
  ℕ, suc, ◌<◌, ◌≡◌, refl, sym, ap, ne→==_false, subst, ◌∙◌, Bool, true, false, List, [], ◌∷◌,
  length, arith, ◌==◌, if◌then◌else◌, Error, Result, ok, err, ◌>>=◌, ◌>>◌, bind_ok, ok_injective,
  no_valid_urls, bad_scheme, no_host_port, url_has_path,
}
use etcd_cr.Types.UrlsMap.{Bytes}
use etcd_cr.Types.Urls.{
  Url, known_scheme, less_text, insert_url, sort_urls, check_url, check_urls, new_urls,
}

-- A URL that passes three tests passes each.
three_tests :
    (a b c : Bool) (d e f : Error) (u v : Url)
    → (if a then ok tt else err d)
        >> ((if b then ok tt else err e) >> ((if c then ok tt else err f) >> ok v))
      ≡ ok u
    → (a ≡ true) × (b ≡ true) × (c ≡ true) × (v ≡ u)
three_tests false b c d e f u v h = cc
three_tests true false c d e f u v h = cc
three_tests true true false d e f u v h = cc
three_tests true true true d e f u v h = (refl, refl, refl, ok_injective h)

some_string :
    (n : ℕ) (rest : Result (List Url))
    → ((if suc n == 0 then err no_valid_urls else ok tt) >> rest) ≡ rest
some_string n rest = rw (ne→==_false (suc n) 0 (λ e. omega arith)) refl

module _ (trim_space : Bytes → Bytes) (parse_url : Bytes → Result Url)
    (is_host_port : Bytes → Bool) where
  abbrev pub Usable : Url → Type 0
  Usable u =
      (known_scheme u.scheme ≡ true) × (is_host_port u.host ≡ true) × ((length u.path == 0) ≡ true)

  abbrev pub AllUsable : List Url → Type 0
  AllUsable [] = Unit {0}
  AllUsable (u ∷ us) = Usable u × AllUsable us

  Usable-check_url :
      (s : Bytes) (u : Url) → check_url trim_space parse_url is_host_port s ≡ ok u → Usable u
  unfolding check_url
  Usable-check_url s u h =
      let (v, parsed, tests) =
        bind_ok (parse_url (trim_space s))
          (λ v.
            (if known_scheme v.scheme then ok tt else err bad_scheme)
            >> ((if is_host_port v.host then ok tt else err no_host_port)
                >> ((if length v.path == 0 then ok tt else err url_has_path) >> ok v)))
          u h in
      let (a, b, c, same) =
        three_tests (known_scheme v.scheme) (is_host_port v.host) (length v.path == 0) bad_scheme
          no_host_port url_has_path u v tests in
      subst Usable same (a, b, c)

  AllUsable-insert_url :
      (u : Url) (us : List Url) → Usable u → AllUsable us → AllUsable (insert_url u us)
  AllUsable-insert_url u [] p q = (p, tt)
  AllUsable-insert_url u (v ∷ vs) p q =
      at_first (less_text v.text u.text) (AllUsable-insert_url u vs p q.1)
    where
      at_first :
          (b : Bool)
          → AllUsable (insert_url u vs)
          → AllUsable (if b then v ∷ insert_url u vs else u ∷ v ∷ vs)
      at_first true r = (q.0, r)
      at_first false r = (p, q)

  AllUsable-sort_urls : (us : List Url) → AllUsable us → AllUsable (sort_urls us)
  unfolding sort_urls
  AllUsable-sort_urls [] q = tt
  AllUsable-sort_urls (u ∷ us) q =
      AllUsable-insert_url u (sort_urls us) q.0 (AllUsable-sort_urls us q.1)

  length-insert_url : (u : Url) (us : List Url) → length (insert_url u us) ≡ suc (length us)
  length-insert_url u [] = refl
  length-insert_url u (v ∷ vs) = ground (arith, length-insert_url u vs)

  length-sort_urls : (us : List Url) → length (sort_urls us) ≡ length us
  unfolding sort_urls
  length-sort_urls [] = refl
  length-sort_urls (u ∷ us) = length-insert_url u (sort_urls us) ∙ ap suc (length-sort_urls us)

  check_urls_lem :
      (strs : List Bytes) (us : List Url)
      → check_urls trim_space parse_url is_host_port strs ≡ ok us
      → AllUsable us × (length us ≡ length strs)
  unfolding check_urls
  check_urls_lem [] us h = subst (λ us. AllUsable us × (length us ≡ 0)) (ok_injective h) (tt, refl)
  check_urls_lem (s ∷ strs) us h =
      let (u, first, h1) =
        bind_ok (check_url trim_space parse_url is_host_port s)
          (λ u. check_urls trim_space parse_url is_host_port strs >>= λ us. ok (u ∷ us)) us h in
      let (rest, more, h2) =
        bind_ok (check_urls trim_space parse_url is_host_port strs) (λ us. ok (u ∷ us)) us h1 in
      let (all, count) = check_urls_lem strs rest more in
      subst (λ us. AllUsable us × (length us ≡ suc (length strs))) (ok_injective h2)
        ((Usable-check_url s u first, all), ap suc count)

  -- `NewURLs` returns one URL for each string, at least one, and each has one of the four schemes, a
  -- host with a port, and no path.
  pub new_urls-AllUsable :
      (strs : List Bytes) (us : List Url)
      → new_urls trim_space parse_url is_host_port strs ≡ ok us
      → AllUsable us × (length us ≡ length strs) × (0 < length us)
  unfolding new_urls
  new_urls-AllUsable [] us h = cc
  new_urls-AllUsable (s ∷ strs) us h =
      let (made, checks, sorted) =
        bind_ok (check_urls trim_space parse_url is_host_port (s ∷ strs)) (λ us. ok (sort_urls us))
          us
          (sym (
              some_string (length strs) (
                check_urls trim_space parse_url is_host_port (s ∷ strs) >>= λ us.
                ok (sort_urls us)))
            ∙ h) in
      let (all, count) = check_urls_lem (s ∷ strs) made checks in
      let total : length us ≡ suc (length strs) =
        ap length (sym (ok_injective sorted)) ∙ length-sort_urls made ∙ count in
      (subst AllUsable (ok_injective sorted) (AllUsable-sort_urls made all), total, omega arith)
