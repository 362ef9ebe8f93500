-- ===== src/Embed/Hosts.antt =====
-- embed/config.go: the default host in the advertised URLs, and `UpdateDefaultClusterFromName`. The
-- host that netutil finds, the parts of a URL and the text of a new one are parameters.
use etcd_cr.Common.{
  Bool, true, false, ◌&&◌, ◌||◌, not, Option, none, some, List, [], ◌∷◌, ◌++◌, length, ◌==◌,
  if◌then◌else◌, Error, Result, ok, ◌>>=◌, or_panic,
}
use etcd_cr.Types.UrlsMap.{Bytes, same_text}
use etcd_cr.Types.Urls.{Url, string_slice}
use etcd_cr.Embed.{Config, default_name, initial_cluster_from_name}

-- `DefaultInitialAdvertisePeerURLs`, "http://localhost:2380".
abbrev pub default_initial_advertise_peer_urls : Bytes
default_initial_advertise_peer_urls =
    104 ∷ 116 ∷ 116 ∷ 112 ∷ 58 ∷ 47 ∷ 47 ∷ 108 ∷ 111 ∷ 99 ∷ 97 ∷ 108 ∷ 104 ∷ 111 ∷ 115 ∷ 116 ∷ 58
    ∷ 50 ∷ 51 ∷ 56 ∷ 48 ∷ []

-- `DefaultAdvertiseClientURLs`, "http://localhost:2379".
abbrev pub default_advertise_client_urls : Bytes
default_advertise_client_urls =
    104 ∷ 116 ∷ 116 ∷ 112 ∷ 58 ∷ 47 ∷ 47 ∷ 108 ∷ 111 ∷ 99 ∷ 97 ∷ 108 ∷ 104 ∷ 111 ∷ 115 ∷ 116 ∷ 58
    ∷ 50 ∷ 51 ∷ 55 ∷ 57 ∷ []

-- "0.0.0.0"
abbrev pub any_host : Bytes
any_host = 48 ∷ 46 ∷ 48 ∷ 46 ∷ 48 ∷ 46 ∷ 48 ∷ []

-- One URL, with the given text.
abbrev pub is_just : Bytes → List Url → Bool
is_just text [] = false
is_just text (u ∷ []) = same_text u.text text
is_just text (u ∷ v ∷ us) = false

-- `defaultPeerHost`
unfoldable pub default_peer_host : Config → Bool
default_peer_host cfg = is_just default_initial_advertise_peer_urls cfg.ap_urls

-- `defaultClientHost`
unfoldable pub default_client_host : Config → Bool
default_client_host cfg = is_just default_advertise_client_urls cfg.ac_urls

-- `getAPURLs`, `getLPURLs`, `getACURLs`, `getLCURLs` and `getMetricsURLs`
unfoldable pub get_ap_urls : Config → List Bytes
get_ap_urls cfg = string_slice cfg.ap_urls

unfoldable pub get_lp_urls : Config → List Bytes
get_lp_urls cfg = string_slice cfg.lp_urls

unfoldable pub get_ac_urls : Config → List Bytes
get_ac_urls cfg = string_slice cfg.ac_urls

unfoldable pub get_lc_urls : Config → List Bytes
get_lc_urls cfg = string_slice cfg.lc_urls

unfoldable pub get_metrics_urls : Config → List Bytes
get_metrics_urls cfg = string_slice cfg.listen_metrics_urls

-- The initial cluster of a configuration with a name of its own and the default cluster.
unfoldable pub name_cluster : Bytes → Config → Config
name_cluster default_cluster cfg =
    if not (same_text cfg.name default_name) && same_text cfg.initial_cluster default_cluster
    then record cfg { initial_cluster = initial_cluster_from_name cfg cfg.name }
    else cfg

-- `urls[0]`
abbrev pub first_url : List Url → Option Url
first_url [] = none
first_url (u ∷ us) = some u

module _ (default_hostname : Bytes) (default_host_status : Option Error)
    (hostname port : Url → Bytes) (url_text : Bytes → Bytes → Bytes) where
  -- The first URL with the default host, and the port.
  unfoldable pub with_host : Bytes → List Url → List Url
  with_host p [] = []
  with_host p (u ∷ us) =
      let host = default_hostname ++ 58 ∷ p in
      record { scheme = u.scheme; host = host; path = []; text = url_text u.scheme host } ∷ us

  abbrev pub no_default_host : Bool
  no_default_host =
      length default_hostname == 0 || elim default_host_status [ none ↦ false | some e ↦ true ]

  -- `cfg.APUrls[0] = url.URL{...}`, and the same of `cfg.ACUrls`.
  unfoldable pub advertise_peer : Bool → Url → Config → Config
  advertise_peer true lp cfg = record cfg { ap_urls = with_host (port lp) cfg.ap_urls }
  advertise_peer false lp cfg = cfg

  unfoldable pub advertise_client : Bool → Url → Config → Config
  advertise_client true lc cfg = record cfg { ac_urls = with_host (port lc) cfg.ac_urls }
  advertise_client false lc cfg = cfg

  -- `UpdateDefaultClusterFromName` with a default host. It panics without a URL to listen on.
  unfoldable pub update_hosts : Bytes → Config → Result (Config × Bytes × Option Error)
  update_hosts default_cluster cfg = do
    lp ← or_panic (first_url cfg.lp_urls)
    let peer = default_peer_host cfg && same_text (hostname lp) any_host
    let named = name_cluster default_cluster (advertise_peer peer lp cfg)
    lc ← or_panic (first_url named.lc_urls)
    let client = default_client_host named && same_text (hostname lc) any_host
    ok (
      advertise_client client lc named,
      if peer || client then default_hostname else [],
      default_host_status,
    )

  -- `UpdateDefaultClusterFromName`: the configuration, and the string and the error that it returns.
  unfoldable pub update_default_cluster_from_name :
      Bytes → Config → Result (Config × Bytes × Option Error)
  update_default_cluster_from_name default_cluster cfg =
      if no_default_host
      then ok (name_cluster default_cluster cfg, [], default_host_status)
      else update_hosts default_cluster cfg
