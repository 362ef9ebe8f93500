-- ===== src/Flags/Agreement.antt =====
-- The invariant of the URLs of a flag in pkg/flags/unique_urls.go.
use etcd_cr.Common.{
  ◌≡◌, refl, sym, ap, subst, ◌∙◌, Bool, true, false, ◌||◌, List, [], ◌∷◌, if◌then◌else◌, Result, ok,
  ◌>>=◌, Bool-cases, inl, inr, bind_ok, ok_injective,
}
use etcd_cr.Types.UrlsMap.{Bytes, same_text}
use etcd_cr.Types.UrlsMap.Parsing.{same_text_sound}
use etcd_cr.Types.Urls.{Url, string_slice, new_urls}
use etcd_cr.Flags.{contains, include, include_all, UniqueUrls, set_urls, split}

contains-same :
    (s v : Bytes) (ts : List Bytes)
    → same_text s v ≡ true
    → contains s ts ≡ true
    → contains v ts ≡ true
contains-same s v ts e h = subst (λ t. contains t ts ≡ true) (same_text_sound s v e) h

contains-include :
    (s v : Bytes) (ts : List Bytes) → contains v (include s ts) ≡ (same_text s v || contains v ts)
contains-include s v ts = elim (Bool-cases (contains s ts)) [
  | inl there ↦ elim (Bool-cases (same_text s v)) [
    | inl same ↦ rw (there, same, contains-same s v ts same there) refl
    | inr other ↦ rw (there, other) refl
  ]
  | inr absent ↦ rw (absent) refl
]

contains-include_all :
    (v : Bytes) (ss ts : List Bytes)
    → contains v (include_all ss ts) ≡ (contains v ss || contains v ts)
contains-include_all v [] ts = refl
contains-include_all v (s ∷ ss) ts =
    contains-include_all v ss (include s ts)
    ∙ ap (λ b. contains v ss || b) (contains-include s v ts)
    ∙ swapped (contains v ss) (same_text s v) (contains v ts)
  where
    swapped : (a b c : Bool) → (a || (b || c)) ≡ ((b || a) || c)
    swapped true true c = refl
    swapped true false c = refl
    swapped false true c = refl
    swapped false false c = refl

-- The texts of the URLs are values, and each value is such a text or is allowed.
pub record Agrees (us : UniqueUrls) : Type 0 where
  pub listed : (v : Bytes) → contains v (string_slice us.uss) ≡ true → contains v us.values ≡ true
  pub known :
      (v : Bytes)
      → contains v us.values ≡ true
      → (contains v (string_slice us.uss) || contains v us.allowed) ≡ true

right_true : (a b : Bool) → b ≡ true → (a || b) ≡ true
right_true true b h = refl
right_true false b h = h

Agrees-exception :
    (s : Bytes) (us : UniqueUrls)
    → contains s us.allowed ≡ true
    → Agrees us
    → Agrees (record us { values = include s us.values })
Agrees-exception s us exception a = record {
  listed = λ v h.
      contains-include s v us.values
      ∙ right_true (same_text s v) (contains v us.values) (a.listed v h);
  known = λ v h. elim (Bool-cases (same_text s v)) [
    | inl same ↦
        right_true (contains v (string_slice us.uss)) (contains v us.allowed)
          (contains-same s v us.allowed same exception)
    | inr other ↦
        a.known v
          (sym (contains-include s v us.values ∙ ap (λ b. b || contains v us.values) other) ∙ h)
  ];
}

or_false : (b : Bool) → (b || false) ≡ b
or_false true = refl
or_false false = refl

left_true : (a b : Bool) → a ≡ true → (a || b) ≡ true
left_true a b h = ap (λ c. c || b) h

Agrees-replaced :
    (ss : List Url) (us : UniqueUrls)
    → Agrees (record us { values = include_all (string_slice ss) []; uss = ss })
Agrees-replaced ss us =
    let same : (v : Bytes)
        → contains v (include_all (string_slice ss) []) ≡ contains v (string_slice ss) =
      λ v. contains-include_all v (string_slice ss) [] ∙ or_false (contains v (string_slice ss)) in
    record {
      listed = λ v h. same v ∙ h;
      known = λ v h.
          left_true (contains v (string_slice ss)) (contains v us.allowed) (sym (same v) ∙ h);
    }

module _ (trim_space : Bytes → Bytes) (parse_url : Bytes → Result Url)
    (is_host_port : Bytes → Bool) where
  -- `Set` keeps, in each case in which it succeeds, that the texts of the URLs are values, and that
  -- each value is such a text or one of the exceptions; and the exceptions stay.
  pub set_urls-Agrees :
      (s : Bytes) (us us' : UniqueUrls)
      → Agrees us
      → set_urls trim_space parse_url is_host_port s us ≡ ok us'
      → Agrees us' × (us'.allowed ≡ us.allowed)
  unfolding set_urls
  set_urls-Agrees s us us' a h =
      by_case (contains s us.values) (contains s us.allowed) refl
        (new_urls trim_space parse_url is_host_port (split s)) h
    where
      replaced : List Url → UniqueUrls
      replaced ss = record us { values = include_all (string_slice ss) []; uss = ss }

      by_case :
          (there exception : Bool)
          → contains s us.allowed ≡ exception
          → (checked : Result (List Url))
          → (if there
              then ok us
              else if exception
              then ok (record us { values = include s us.values })
              else (checked >>= λ ss. ok (replaced ss)))
            ≡ ok us'
          → Agrees us' × (us'.allowed ≡ us.allowed)
      by_case true exception e checked g =
          subst (λ u. Agrees u × (u.allowed ≡ us.allowed)) (ok_injective g) (a, refl)
      by_case false true e checked g =
          subst (λ u. Agrees u × (u.allowed ≡ us.allowed)) (ok_injective g)
            (Agrees-exception s us e a, refl)
      by_case false false e checked g =
          let (ss, _, done) = bind_ok checked (λ ss. ok (replaced ss)) us' g in
          subst (λ u. Agrees u × (u.allowed ≡ us.allowed)) (ok_injective done)
            (Agrees-replaced ss us, refl)
