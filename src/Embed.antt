-- ===== src/Embed.antt =====
-- embed/config.go: the text of the initial cluster that a start without one makes of a member's name
-- and its advertised peer URLs, and the map that is read from it. A URL stands for its text.
pub mod Cluster
pub mod Hosts
pub mod Renamed
use etcd_cr.Common.{
  ℕ, ◌+◌, ◌/◌, Bool, true, false, Option, none, some, List, [], ◌∷◌, ◌++◌, drop, length, ◌==◌,
  if◌then◌else◌, Result, ok, err, panic,
}
use etcd_cr.Types.UrlsMap.{Bytes, comma, equals_sign, parse, same_text}
use etcd_cr.Types.Urls.{Url, new_urls_map}

-- `DefaultName`, the text "default".
abbrev pub default_name : Bytes
default_name = 100 ∷ 101 ∷ 102 ∷ 97 ∷ 117 ∷ 108 ∷ 116 ∷ []

-- `ClusterStateFlagNew`, the text "new".
abbrev pub cluster_state_flag_new : Bytes
cluster_state_flag_new = 110 ∷ 101 ∷ 119 ∷ []

-- The fields of `Config` that name the cluster and its URLs.
pub record Config : Type 0 where
  pub name : Bytes
  pub election_ms : ℕ
  pub tick_ms : ℕ
  pub lp_urls : List Url
  pub lc_urls : List Url
  pub ap_urls : List Url
  pub ac_urls : List Url
  pub listen_metrics_urls : List Url
  pub cluster_state : Bytes
  pub dns_cluster : Bytes
  pub durl : Bytes
  pub initial_cluster : Bytes
  pub initial_cluster_token : Bytes

-- The loop of `InitialClusterFromName`.
unfoldable pub cluster_text : Bytes → List Url → Bytes → Bytes
cluster_text n [] ret = ret
cluster_text n (u ∷ us) ret = cluster_text n us (ret ++ comma ∷ (n ++ equals_sign ∷ u.text))

-- `InitialClusterFromName`
unfoldable pub initial_cluster_from_name : Config → Bytes → Bytes
initial_cluster_from_name cfg name =
    if length cfg.ap_urls == 0
    then []
    else drop 1 (cluster_text (if length name == 0 then default_name else name) cfg.ap_urls [])

-- `IsNewCluster`
unfoldable pub is_new_cluster : Config → Bool
is_new_cluster cfg = same_text cfg.cluster_state cluster_state_flag_new

-- `ElectionTicks`: a division by zero panics.
unfoldable pub election_ticks : Config → Result ℕ
election_ticks cfg = if cfg.tick_ms == 0 then panic else ok (cfg.election_ms / cfg.tick_ms)

-- `PeerURLsMapAndToken`; a nil map is empty.
module _ (trim_space : Bytes → Bytes) (parse_url : Bytes → Result Url)
    (is_host_port : Bytes → Bool) where
  unfoldable pub peer_urls_map_and_token : Config → Result (List (Bytes × List Url)) × Bytes
  peer_urls_map_and_token cfg =
      if not_empty cfg.durl
      then (ok ((cfg.name, cfg.ap_urls) ∷ []), cfg.durl)
      else if not_empty cfg.dns_cluster
      then (ok [], cfg.initial_cluster_token)
      else (
        new_urls_map trim_space parse_url is_host_port cfg.initial_cluster,
        cfg.initial_cluster_token,
      )
    where
      not_empty : Bytes → Bool
      not_empty [] = false
      not_empty (c ∷ cs) = true
