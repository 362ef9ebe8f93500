-- ===== src/Tests/Clusters.antt =====
-- A new cluster of two members, `a` at "h1" and `b` at "h2", with the token "t". In place of SHA-1
-- stands the function that returns its input.
use mathlib.Core.List.{Permᴰ, Perm}
use etcd_cr.Common.{
  ◌++◌, ℕ, ◌<◌, ◌≡◌, refl, true, false, none, some, List, [], ◌∷◌, map, length, arith, Result, ok,
}
use etcd_cr.Storage.{MemoryStorage}
use etcd_cr.Quorum.{sort_ids}
use etcd_cr.Quorum.Sorting.{IsAscending}
use etcd_cr.Node.{Node}
use etcd_cr.Membership.{
  Bytes, Member, RaftCluster, new_member, new_cluster, add_members, gen_id, member_ids, member_id,
  members_by_id, values, sort_strings, big_endian, put_uint64, new_cluster_from_urls_map,
  member_by_name,
}
use etcd_cr.Membership.Identity.{cid-perm}
use etcd_cr.Membership.Listing.{members_by_id_lem}
use etcd_cr.Membership.Keys.{
  must_parse_member_id_from_key, dir, member_attributes_store_path, must_parse-member_attributes,
}
use etcd_cr.Etcdserver.Starting.{raft_logger, ServerConfig, new_cluster_node}
use etcd_cr.Etcdserver.Founding.{member_peers, IsFounded, new_cluster_node-IsFounded}
use etcd_cr.Types.UrlsMap.{parse, comma}
use etcd_cr.Types.UrlsMap.Parsing.{text, find, urls_of, parse-text}
use etcd_cr.Types.UrlsMap.Rounds.{parse-ends}
use etcd_cr.Types.Urls.{Url, new_urls, check_urls, check_url, sort_urls}
use etcd_cr.Types.Urls.Checks.{AllUsable, new_urls-AllUsable}
use etcd_cr.Embed.{Config}
use etcd_cr.Embed.Hosts
use etcd_cr.Embed.Renamed.{update_default_cluster_from_name-parse}
use etcd_cr.Embed.Cluster.{entry_of, NoComma}
use etcd_cr.Flags.{UniqueUrls, set_urls, split}
use etcd_cr.Flags.Agreement.{Agrees, set_urls-Agrees}
use etcd_cr.Tests.Nodes.{counting}

abbrev same : Bytes → Bytes
same b = b

abbrev token : Bytes
token = 116 ∷ []

abbrev two : List (Bytes × List Bytes)
two = (97 ∷ [], (104 ∷ 49 ∷ []) ∷ []) ∷ (98 ∷ [], (104 ∷ 50 ∷ []) ∷ []) ∷ []

-- The ids are the bytes "h1t" and "h2t", as numbers.
abbrev first_member : Member
first_member = record {
  id = 6828404;
  peer_urls = some ((104 ∷ 49 ∷ []) ∷ []);
  is_learner = false;
  name = 97 ∷ [];
  client_urls = none;
}

abbrev second_member : Member
second_member = record {
  id = 6828660;
  peer_urls = some ((104 ∷ 50 ∷ []) ∷ []);
  is_learner = false;
  name = 98 ∷ [];
  client_urls = none;
}

abbrev cluster : List (ℕ × Member) → RaftCluster
cluster members = record {
  local_id = 0;
  cid = 6828404;
  token = token;
  members = members;
  removed = [];
  logs = true;
}

abbrev one_way : RaftCluster
one_way = cluster ((6828404, first_member) ∷ (6828660, second_member) ∷ [])

abbrev other_way : RaftCluster
other_way = cluster ((6828660, second_member) ∷ (6828404, first_member) ∷ [])

two-cluster : new_cluster_from_urls_map same true token two ≡ ok one_way
unfolding new_cluster_from_urls_map add_members new_member new_cluster gen_id member_ids
    sort_strings big_endian put_uint64 sort_ids
two-cluster = refl

abbrev two_swapped : List (Bytes × List Bytes)
two_swapped = (98 ∷ [], (104 ∷ 50 ∷ []) ∷ []) ∷ (97 ∷ [], (104 ∷ 49 ∷ []) ∷ []) ∷ []

swapped-cluster : new_cluster_from_urls_map same true token two_swapped ≡ ok other_way
unfolding new_cluster_from_urls_map add_members new_member new_cluster gen_id member_ids
    sort_strings big_endian put_uint64 sort_ids
swapped-cluster = refl

swapped : Perm two two_swapped
swapped = ∣ Permᴰ.swap refl refl ∣₁

cid-perm_example : one_way.cid ≡ other_way.cid
cid-perm_example =
    cid-perm same token true two two_swapped one_way other_way swapped two-cluster swapped-cluster

members_by_id_example :
    IsAscending (map member_id (members_by_id other_way))
    × Permᴰ (members_by_id other_way) (values other_way.members)
members_by_id_example = members_by_id_lem other_way

must_parse-member_attributes_example :
    must_parse_member_id_from_key (dir (member_attributes_store_path 6828404)) ≡ 6828404
must_parse-member_attributes_example = must_parse-member_attributes 6828404 (omega arith)

abbrev server_config : ServerConfig
server_config = record {
  name = 98 ∷ [];
  initial_cluster_token = token;
  initial_peer_urls_map = two;
  election_ticks = 10;
  pre_vote = false;
  logger = true;
  logger_config = true;
  logger_core = false;
}

has_raft_logger : raft_logger true server_config ≡ ok true
unfolding raft_logger
has_raft_logger = refl

new_cluster_node-IsFounded_example :
    (m : Member) × (nd : Node MemoryStorage ℕ) × (member_by_name one_way (98 ∷ []) ≡ ok (some m))
    × (m.name ≡ 98 ∷ [])
    × (new_cluster_node true true (λ m. some []) same server_config 4 ≡ ok (m.id, some nd))
    × IsAscending (member_ids one_way)
    × IsFounded (member_ids one_way) (member_peers (λ m. []) one_way (member_ids one_way)) nd
new_cluster_node-IsFounded_example =
    new_cluster_node-IsFounded true (λ m. some []) (λ m. []) same server_config one_way 4
      has_raft_logger (λ m. refl) refl (refl, (refl, tt)) two-cluster (omega arith) (omega arith)

-- The items "a=x" and "a=y".
abbrev two_items : List (Bytes × Bytes)
two_items = (97 ∷ [], 120 ∷ []) ∷ (97 ∷ [], 121 ∷ []) ∷ []

parse-text_example :
    (out : List (Bytes × List Bytes)) × (parse (text two_items) ≡ some out)
    × ((name : Bytes) → find name out ≡ urls_of name two_items)
parse-text_example = parse-text two_items (refl, refl, refl, (refl, refl, refl, tt))

parse-ends_example : (out : List (Bytes × List Bytes)) × (parse (97 ∷ comma ∷ 98 ∷ []) ≡ some out)
parse-ends_example = parse-ends (97 ∷ comma ∷ 98 ∷ [])

-- "http://h:1", by its parts.
abbrev url : Url
url = record {
  scheme = 104 ∷ 116 ∷ 116 ∷ 112 ∷ [];
  host = 104 ∷ 58 ∷ 49 ∷ [];
  path = [];
  text = 104 ∷ 116 ∷ 116 ∷ 112 ∷ 58 ∷ 47 ∷ 47 ∷ 104 ∷ 58 ∷ 49 ∷ [];
}

abbrev member_config : Config
member_config = record {
  name = [];
  election_ms = 1000;
  tick_ms = 100;
  lp_urls = url ∷ [];
  lc_urls = url ∷ [];
  ap_urls = url ∷ [];
  ac_urls = url ∷ [];
  listen_metrics_urls = [];
  cluster_state = [];
  dns_cluster = [];
  durl = [];
  initial_cluster = [];
  initial_cluster_token = token;
}

-- The host "h" with the port "2", in the place of the first URL.
abbrev on_host : Bytes → Bytes → Bytes
on_host scheme host = scheme ++ host

abbrev all_hosts : Url → Bytes
all_hosts u = Hosts.any_host

abbrev two_port : Url → Bytes
two_port u = 50 ∷ []

abbrev named_config : Config
named_config = record member_config { name = 97 ∷ [] }

clean-urls :
    NoComma (
      Hosts.with_host
        (104 ∷ [])
        none
        all_hosts
        two_port
        on_host
        (two_port url)
        named_config.ap_urls)
unfolding Hosts.with_host
clean-urls = (refl, tt)

update_default_cluster_from_name-parse_example :
    (r : Config × Bytes) × (Hosts.update_default_cluster_from_name
        (104 ∷ [])
        none
        all_hosts
        two_port
        on_host
        []
        named_config
      ≡ ok (r.0, r.1, none))
    × (parse r.0.initial_cluster ≡ some (entry_of (97 ∷ []) r.0.ap_urls))
update_default_cluster_from_name-parse_example =
    update_default_cluster_from_name-parse (104 ∷ []) none all_hosts two_port on_host []
      named_config url url refl refl refl refl refl refl (refl, tt) clean-urls

-- A parser that knows one URL.
abbrev knows_one : Bytes → Result Url
knows_one s = ok url

accepts-url : new_urls same knows_one (λ host. true) (url.text ∷ []) ≡ ok (url ∷ [])
unfolding new_urls check_urls check_url sort_urls
accepts-url = refl

new_urls-AllUsable_example :
    AllUsable same knows_one (λ host. true) (url ∷ [])
    × (length (url ∷ []) ≡ length (url.text ∷ []))
    × (0 < length (url ∷ []))
new_urls-AllUsable_example =
    new_urls-AllUsable same knows_one (λ host. true) (url.text ∷ []) (url ∷ []) accepts-url

-- A flag with the exception "auto" and no value.
abbrev no_urls : UniqueUrls
no_urls = record { values = []; uss = []; allowed = (97 ∷ 117 ∷ 116 ∷ 111 ∷ []) ∷ [] }

abbrev one_url : UniqueUrls
one_url = record no_urls { values = url.text ∷ []; uss = url ∷ [] }

no_urls-Agrees : Agrees no_urls
no_urls-Agrees = record { listed = λ v h. cc; known = λ v h. cc }

set_one : set_urls same knows_one (λ host. true) url.text no_urls ≡ ok one_url
unfolding set_urls new_urls check_urls check_url sort_urls split
set_one = refl

set_urls-Agrees_example : Agrees one_url × (one_url.allowed ≡ no_urls.allowed)
set_urls-Agrees_example =
    set_urls-Agrees same knows_one (λ host. true) url.text no_urls one_url no_urls-Agrees set_one
