-- ===== src/Graph/Build/Draft.antt =====
-- src/mcpscan/graph/build.py: the nodes and edges that come from profiles and assets. `Draft` is what
-- `build_graph` keeps while it builds: the nodes by id and the set of edges.
use mathlib.Core.Option
use ianua_broker.Graph.Model.{
  edge_Eq, entry, agent_host, mcp_server, hosts, reaches, Node, edge_kind_Eq, edge_Eq, entry,
  agent_host, mcp_server, hosts, reaches, Edge,
}
use ianua_broker.Trust.Model.{exposure_reach, TrustProfile, exposure_reach}
use ianua_broker.Prelude.{String, List, Dict, add_member, has, put, if◌then◌else◌, ◌==◌, ◌&&◌, not}
use ianua_broker.Prelude.{
  num_Ord, text_Ord, pair_Ord, list_Ord, none, some, [], ◌∷◌, text_Eq, num_Eq, pair_Eq, option_Eq,
  list_Eq,
}
use ianua_broker.Discovery.Reach.{
  IpAddress, classify_reachability, tier_value, ReachTier, is_loopback_tier,
}
use ianua_broker.Graph.Build.Facts.{
  server_key, entry_key, host_key, server_detail, has_factor, reach_label,
}
use ianua_broker.Inventory.Model.{Asset, is_agent_host, is_socket}

pub record Draft : Type 0 where
  pub nodes : Dict String Node
  pub edges : List Edge

-- `nodes[node.id] = node`
unfoldable pub set_node : Node → Draft → Draft
unfolding put
set_node node draft = record draft { nodes = put node.id node draft.nodes }

-- `nodes.setdefault(node.id, node)`
unfoldable pub default_node : Node → Draft → Draft
unfolding has put
default_node node draft = if has node.id draft.nodes then draft else set_node node draft

-- `edges.add(edge)`
unfoldable pub add_edge : Edge → Draft → Draft
unfolding add_member
add_edge edge draft = record draft { edges = add_member edge draft.edges }

abbrev pub host_node : String → String → Node
host_node location label = record {
  id = host_key location;
  kind = agent_host;
  label = label;
  detail = ("config", location) ∷ ("host", label) ∷ [];
}

-- The first loop over the profiles.
unfoldable pub add_profile : TrustProfile → Draft → Draft
unfolding set_node default_node add_edge server_key host_key entry_key server_detail has_factor
    reach_label
add_profile profile draft =
    let server_id = server_key profile.subject in
    let server : Node = record {
      id = server_id;
      kind = mcp_server;
      label = profile.server_name;
      detail = server_detail profile;
    } in
    let hosted =
      add_edge
        (record {
          src = host_key profile.location;
          dst = server_id;
          kind = hosts;
          detail = "declares";
        })
        (default_node (host_node profile.location profile.host) (set_node server draft)) in
    let reach = reach_label profile in
    let exposed : Node = record {
      id = entry_key profile.subject;
      kind = entry;
      label = profile.server_name;
      detail = ("reach", reach) ∷ ("surface", "network bind hint") ∷ [];
    } in
    if has_factor profile exposure_reach
    then add_edge (record { src = exposed.id; dst = server_id; kind = reaches; detail = reach })
        (set_node exposed hosted)
    else hosted

unfoldable pub add_profiles : List TrustProfile → Draft → Draft
unfolding add_profile
add_profiles [] draft = draft
add_profiles (profile ∷ rest) draft = add_profiles rest (add_profile profile draft)

-- `asset.host or asset.product`
unfoldable pub asset_host : Asset → String
asset_host asset = elim asset.host [
  | none ↦ asset.product
  | some host ↦ if host == "" then asset.product else host
]

unfoldable pub socket_node : Asset → ReachTier → Node
unfolding entry_key tier_value
socket_node asset tier = record {
  id = entry_key asset.location;
  kind = entry;
  label = asset.product;
  detail = ("reach", tier_value tier) ∷ ("socket", asset.location) ∷ [];
}

module _ (ip_address : IpAddress) where
  unfoldable pub add_socket : Asset → String → Draft → Draft
  unfolding classify_reachability default_node socket_node
  add_socket asset bind_addr draft =
      let tier = classify_reachability ip_address bind_addr in
      if is_loopback_tier tier then draft else default_node (socket_node asset tier) draft

  unfoldable pub add_asset : Asset → Draft → Draft
  unfolding asset_host default_node add_socket
  add_asset asset draft =
      let bound = Option.get_or asset.bind_addr "" in
      if is_agent_host asset.kind && not (asset.location == "")
      then default_node (host_node asset.location (asset_host asset)) draft
      else if is_socket asset.source && not (bound == "")
      then add_socket asset bound draft
      else draft

  unfoldable pub add_assets : List Asset → Draft → Draft
  unfolding add_asset
  add_assets [] draft = draft
  add_assets (asset ∷ rest) draft = add_assets rest (add_asset asset draft)
