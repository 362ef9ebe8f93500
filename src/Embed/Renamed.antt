-- ===== src/Embed/Renamed.antt =====
-- The initial cluster after `UpdateDefaultClusterFromName` of embed/config.go.
use etcd_cr.Common.{
  ◌≡◌, refl, sym, ap, subst, ◌∙◌, Bool, true, false, ◌&&◌, ◌||◌, not, Option, some, [],
  if◌then◌else◌, Error, Result, ok, or_panic, ok_injective, bind_ok,
}
use etcd_cr.Common.Maps.{has}
use etcd_cr.Types.UrlsMap.{Bytes, comma, equals_sign, same_text, parse}
use etcd_cr.Types.Urls.{Url}
use etcd_cr.Embed.{Config, default_name, initial_cluster_from_name}
use etcd_cr.Embed.Cluster.{chosen, NoComma, entry_of, initial_cluster_from_name-parse}
use etcd_cr.Embed.Hosts

-- The initial cluster is the text of the name and of the advertised URLs.
IsNamed : Bytes → Config → Type 0
IsNamed name cfg = cfg.initial_cluster ≡ initial_cluster_from_name cfg name

name_cluster-IsNamed :
    (d : Bytes) (cfg : Config)
    → same_text cfg.name default_name ≡ false
    → same_text cfg.initial_cluster d ≡ true
    → IsNamed cfg.name (Hosts.name_cluster d cfg)
unfolding IsNamed Hosts.name_cluster initial_cluster_from_name
name_cluster-IsNamed d cfg n i = rw (n, i) refl

name_cluster-kept :
    (d : Bytes) (cfg : Config)
    → ((Hosts.name_cluster d cfg).lc_urls ≡ cfg.lc_urls)
      × ((Hosts.name_cluster d cfg).ap_urls ≡ cfg.ap_urls)
unfolding Hosts.name_cluster
name_cluster-kept d cfg =
    kept (not (same_text cfg.name default_name) && same_text cfg.initial_cluster d)
  where
    renamed : Config
    renamed = record cfg { initial_cluster = initial_cluster_from_name cfg cfg.name }

    kept :
        (b : Bool)
        → ((if b then renamed else cfg).lc_urls ≡ cfg.lc_urls)
          × ((if b then renamed else cfg).ap_urls ≡ cfg.ap_urls)
    kept true = (refl, refl)
    kept false = (refl, refl)

module _ (default_hostname : Bytes) (default_host_status : Option Error)
    (hostname port : Url → Bytes) (url_text : Bytes → Bytes → Bytes) where
  advertise_peer-IsNamed :
      (b : Bool) (lp : Url) (d : Bytes) (cfg : Config)
      → same_text cfg.name default_name ≡ false
      → same_text cfg.initial_cluster d ≡ true
      → IsNamed cfg.name (
          Hosts.name_cluster d (
            Hosts.advertise_peer default_hostname default_host_status hostname port url_text b lp
              cfg))
  unfolding Hosts.advertise_peer
  advertise_peer-IsNamed true lp d cfg n i =
      name_cluster-IsNamed d
        (Hosts.advertise_peer default_hostname default_host_status hostname port url_text true lp
          cfg)
        n i
  advertise_peer-IsNamed false lp d cfg n i = name_cluster-IsNamed d cfg n i

  advertise_client-IsNamed :
      (b : Bool) (lc : Url) (name : Bytes) (cfg : Config)
      → IsNamed name cfg
      → IsNamed name (
          Hosts.advertise_client default_hostname default_host_status hostname port url_text b lc
            cfg)
  unfolding IsNamed Hosts.advertise_client initial_cluster_from_name
  advertise_client-IsNamed true lc name cfg n = n
  advertise_client-IsNamed false lc name cfg n = n

  advertise_client-kept :
      (b : Bool) (lc : Url) (cfg : Config)
      → (Hosts.advertise_client default_hostname default_host_status hostname port url_text b lc
          cfg).ap_urls
        ≡ cfg.ap_urls
  unfolding Hosts.advertise_client
  advertise_client-kept true lc cfg = refl
  advertise_client-kept false lc cfg = refl

  advertise_peer-NoComma :
      (b : Bool) (lp : Url) (cfg : Config)
      → NoComma cfg.ap_urls
      → NoComma (
          Hosts.with_host default_hostname default_host_status hostname port url_text
            (port lp)
            cfg.ap_urls)
      → ((Hosts.advertise_peer default_hostname default_host_status hostname port url_text b lp
            cfg).lc_urls
          ≡ cfg.lc_urls)
        × NoComma
            (Hosts.advertise_peer default_hostname default_host_status hostname port url_text b lp
              cfg).ap_urls
  unfolding Hosts.advertise_peer
  advertise_peer-NoComma true lp cfg u u' = (refl, u')
  advertise_peer-NoComma false lp cfg u u' = (refl, u)

  update_hosts-IsNamed :
      (d : Bytes) (cfg : Config) (r : Config × Bytes × Option Error)
      → same_text cfg.name default_name ≡ false
      → same_text cfg.initial_cluster d ≡ true
      → Hosts.update_hosts default_hostname default_host_status hostname port url_text d cfg ≡ ok r
      → IsNamed cfg.name r.0
  unfolding Hosts.update_hosts
  update_hosts-IsNamed d cfg r n i h =
      let (lp, _, h1) = bind_ok (or_panic (Hosts.first_url cfg.lp_urls)) _ r h in
      let peer : Bool = Hosts.default_peer_host cfg && same_text (hostname lp) Hosts.any_host in
      let named : Config = Hosts.name_cluster d (
        Hosts.advertise_peer default_hostname default_host_status hostname port url_text peer lp
          cfg) in
      let (lc, _, h2) = bind_ok (or_panic (Hosts.first_url named.lc_urls)) _ r h1 in
      let client : Bool =
        Hosts.default_client_host named && same_text (hostname lc) Hosts.any_host in
      subst (λ s. IsNamed cfg.name s.0) (ok_injective h2)
        (advertise_client-IsNamed client lc cfg.name named
          (advertise_peer-IsNamed peer lp d cfg n i))

  update-IsNamed :
      (d : Bytes) (cfg : Config) (r : Config × Bytes × Option Error)
      → same_text cfg.name default_name ≡ false
      → same_text cfg.initial_cluster d ≡ true
      → Hosts.update_default_cluster_from_name default_hostname default_host_status hostname port
          url_text d cfg
        ≡ ok r
      → IsNamed cfg.name r.0
  unfolding Hosts.update_default_cluster_from_name
  update-IsNamed d cfg r n i h =
      by_host (Hosts.no_default_host default_hostname default_host_status hostname port url_text)
        (Hosts.update_hosts default_hostname default_host_status hostname port url_text d cfg)
        (update_hosts-IsNamed d cfg r n i) h
    where
      by_host :
          (b : Bool) (rest : Result (Config × Bytes × Option Error))
          → (rest ≡ ok r → IsNamed cfg.name r.0)
          → (if b then ok (Hosts.name_cluster d cfg, [], default_host_status) else rest) ≡ ok r
          → IsNamed cfg.name r.0
      by_host true rest go e =
          subst (λ s. IsNamed cfg.name s.0) (ok_injective e) (name_cluster-IsNamed d cfg n i)
      by_host false rest go e = go e

  -- It succeeds on URLs to listen on, and leaves no `,` in the advertised URLs.
  update_hosts-done :
      (d : Bytes) (cfg : Config) (lp lc : Url)
      → Hosts.first_url cfg.lp_urls ≡ some lp
      → Hosts.first_url cfg.lc_urls ≡ some lc
      → NoComma cfg.ap_urls
      → NoComma (
          Hosts.with_host default_hostname default_host_status hostname port url_text
            (port lp)
            cfg.ap_urls)
      → (r : Config × Bytes) × (Hosts.update_hosts default_hostname default_host_status hostname
            port url_text d cfg
          ≡ ok (r.0, r.1, default_host_status))
        × NoComma r.0.ap_urls
  unfolding Hosts.update_hosts
  update_hosts-done d cfg lp lc elp elc u u' =
      let peer : Bool = Hosts.default_peer_host cfg && same_text (hostname lp) Hosts.any_host in
      let changed : Config =
        Hosts.advertise_peer default_hostname default_host_status hostname port url_text peer lp
          cfg in
      let named : Config = Hosts.name_cluster d changed in
      let client : Bool =
        Hosts.default_client_host named && same_text (hostname lc) Hosts.any_host in
      let (same_lc, same_ap) = name_cluster-kept d changed in
      let (kept_lc, fine) = advertise_peer-NoComma peer lp cfg u u' in
      let listens : Hosts.first_url named.lc_urls ≡ some lc =
        ap Hosts.first_url (same_lc ∙ kept_lc) ∙ elc in
      (
        (
          Hosts.advertise_client default_hostname default_host_status hostname port url_text client
              lc named,
          if peer || client then default_hostname else [],
        ),
        rw (elp, Hosts.update_hosts, listens) refl,
        subst NoComma (sym (advertise_client-kept client lc named ∙ same_ap)) fine,
      )

  update-done :
      (d : Bytes) (cfg : Config) (lp lc : Url)
      → Hosts.first_url cfg.lp_urls ≡ some lp
      → Hosts.first_url cfg.lc_urls ≡ some lc
      → NoComma cfg.ap_urls
      → NoComma (
          Hosts.with_host default_hostname default_host_status hostname port url_text
            (port lp)
            cfg.ap_urls)
      → (r : Config × Bytes) × (Hosts.update_default_cluster_from_name default_hostname
            default_host_status hostname port url_text d cfg
          ≡ ok (r.0, r.1, default_host_status))
        × NoComma r.0.ap_urls
  unfolding Hosts.update_default_cluster_from_name
  update-done d cfg lp lc elp elc u u' =
      by_host (Hosts.no_default_host default_hostname default_host_status hostname port url_text)
        (Hosts.update_hosts default_hostname default_host_status hostname port url_text d cfg)
        (update_hosts-done d cfg lp lc elp elc u u')
    where
      named : Config
      named = Hosts.name_cluster d cfg

      Done : Result (Config × Bytes × Option Error) → Type 0
      Done t = (r : Config × Bytes) × (t ≡ ok (r.0, r.1, default_host_status)) × NoComma r.0.ap_urls

      by_host :
          (b : Bool) (rest : Result (Config × Bytes × Option Error))
          → Done rest
          → Done (if b then ok (named, [], default_host_status) else rest)
      by_host true rest go = ((named, []), refl, subst NoComma (sym (name_cluster-kept d cfg).1) u)
      by_host false rest go = go

  -- `UpdateDefaultClusterFromName`, on a configuration whose name is not "default" and which has the
  -- default cluster and URLs to listen on: it returns, whatever host and status netutil finds, and
  -- `parse` reads from the initial cluster that it leaves just one entry, of the configuration's name,
  -- or of "default" if that is empty, with the advertised peer URLs that it leaves, in their order;
  -- and no entry if there are no such URLs. The name has no `,` and no `=`; none of the advertised
  -- peer URLs has a `,`, nor would with the default host in the first.
  pub update_default_cluster_from_name-parse :
      (d : Bytes) (cfg : Config) (lp lc : Url)
      → same_text cfg.name default_name ≡ false
      → same_text cfg.initial_cluster d ≡ true
      → Hosts.first_url cfg.lp_urls ≡ some lp
      → Hosts.first_url cfg.lc_urls ≡ some lc
      → has equals_sign (chosen cfg.name) ≡ false
      → has comma (chosen cfg.name) ≡ false
      → NoComma cfg.ap_urls
      → NoComma (
          Hosts.with_host default_hostname default_host_status hostname port url_text
            (port lp)
            cfg.ap_urls)
      → (r : Config × Bytes) × (Hosts.update_default_cluster_from_name default_hostname
            default_host_status hostname port url_text d cfg
          ≡ ok (r.0, r.1, default_host_status))
        × (parse r.0.initial_cluster ≡ some (entry_of (chosen cfg.name) r.0.ap_urls))
  unfolding IsNamed
  update_default_cluster_from_name-parse d cfg lp lc n i elp elc e c u u' =
      let (r, done, fine) = update-done d cfg lp lc elp elc u u' in
      let named = update-IsNamed d cfg (r.0, r.1, default_host_status) n i done in
      (r, done, ap parse named ∙ initial_cluster_from_name-parse r.0 cfg.name e c fine)
