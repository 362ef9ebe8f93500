-- ===== src/Embed/Cluster.antt =====
-- The initial cluster of embed/config.go, from the member's name to the map of its URLs.
use etcd_cr.Common.{
  suc, ne→==_false, arith, ◌≡◌, refl, sym, ap, ◌∙◌, false, some, List, [], ◌∷◌, ◌++◌, append_assoc,
  append-nil, drop, length, ◌==◌, if◌then◌else◌,
}
use etcd_cr.Common.Maps.{has}
use etcd_cr.Types.UrlsMap.{Bytes, comma, equals_sign, parse}
use etcd_cr.Types.UrlsMap.Parsing.{
  item, text, more_text, Separable, parse-group, group, same_text_refl,
}
use etcd_cr.Types.Urls.{Url, string_slice}
use etcd_cr.Embed.{Config, default_name, cluster_text, initial_cluster_from_name}

-- Each URL under the one name.
abbrev pub named : Bytes → List Url → List (Bytes × Bytes)
named n [] = []
named n (u ∷ us) = (n, u.text) ∷ named n us

cluster_text-more :
    (n : Bytes) (us : List Url) (ret : Bytes)
    → cluster_text n us ret ≡ ret ++ more_text (named n us)
unfolding cluster_text
cluster_text-more n [] ret = sym (append-nil ret)
cluster_text-more n (u ∷ us) ret =
    cluster_text-more n us (ret ++ comma ∷ item (n, u.text))
    ∙ append_assoc ret (comma ∷ item (n, u.text)) (more_text (named n us))

-- No URL has a `,`.
abbrev pub NoComma : List Url → Type 0
NoComma [] = Unit {0}
NoComma (u ∷ us) = (has comma u.text ≡ false) × NoComma us

Separable-named :
    (n : Bytes) (us : List Url)
    → has equals_sign n ≡ false
    → has comma n ≡ false
    → NoComma us
    → Separable (named n us)
Separable-named n [] e c u = tt
Separable-named n (v ∷ us) e c u = (e, c, u.0, Separable-named n us e c u.1)

-- A name with its URLs, if it has any.
abbrev pub entry_of : Bytes → List Url → List (Bytes × List Bytes)
entry_of n [] = []
entry_of n (u ∷ us) = (n, string_slice (u ∷ us)) ∷ []

group-more :
    (n : Bytes) (us : List Url) (vs : List Bytes)
    → group (named n us) ((n, vs) ∷ []) ≡ (n, vs ++ string_slice us) ∷ []
group-more n [] vs = ap (λ ws. (n, ws) ∷ []) (sym (append-nil vs))
group-more n (u ∷ us) vs =
    ap
      (λ b.
        group (named n us)
          (if b then (n, vs ++ u.text ∷ []) ∷ [] else (n, vs) ∷ (n, u.text ∷ []) ∷ []))
      (same_text_refl n)
    ∙ group-more n us (vs ++ u.text ∷ [])
    ∙ ap (λ ws. (n, ws) ∷ []) (append_assoc vs (u.text ∷ []) (string_slice us))

group-named : (n : Bytes) (us : List Url) → group (named n us) [] ≡ entry_of n us
group-named n [] = refl
group-named n (u ∷ us) = group-more n us (u.text ∷ [])

-- The name that `InitialClusterFromName` writes.
abbrev pub chosen : Bytes → Bytes
chosen name = if length name == 0 then default_name else name

initial_cluster_from_name-text :
    (cfg : Config) (name : Bytes)
    → initial_cluster_from_name cfg name ≡ text (named (chosen name) cfg.ap_urls)
unfolding initial_cluster_from_name
initial_cluster_from_name-text cfg name = of_urls (chosen name) cfg.ap_urls
  where
    of_urls :
        (n : Bytes) (us : List Url)
        → (if length us == 0 then [] else drop 1 (cluster_text n us [])) ≡ text (named n us)
    of_urls n [] = refl
    of_urls n (u ∷ us) =
        rw (ne→==_false (suc (length us)) 0 (λ e. omega arith))
          (ap (drop 1) (cluster_text-more n (u ∷ us) []))

-- The text that `InitialClusterFromName` makes of a name and of the advertised peer URLs is read
-- back by `parse`, as `PeerURLsMapAndToken` does: just one entry, of the name, or of "default" for an
-- empty one, with these URLs, in their order; and none for no URLs. The name has no `,` and no `=`,
-- and no URL has a `,`.
pub initial_cluster_from_name-parse :
    (cfg : Config) (name : Bytes)
    → has equals_sign (chosen name) ≡ false
    → has comma (chosen name) ≡ false
    → NoComma cfg.ap_urls
    → parse (initial_cluster_from_name cfg name) ≡ some (entry_of (chosen name) cfg.ap_urls)
initial_cluster_from_name-parse cfg name e c u =
    ap parse (initial_cluster_from_name-text cfg name)
    ∙ parse-group (named (chosen name) cfg.ap_urls)
        (Separable-named (chosen name) cfg.ap_urls e c u)
    ∙ ap some (group-named (chosen name) cfg.ap_urls)
