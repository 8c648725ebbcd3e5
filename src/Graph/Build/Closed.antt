-- ===== src/Graph/Build/Closed.antt =====
-- Every loop of the construction keeps the two ends of every edge among the nodes.
use ianua_broker.Graph.Model.{edge_Eq, entry, mcp_server, hosts, reaches, Node, Edge}
use ianua_broker.Trust.Model.{exposure_reach, TrustProfile}
use ianua_broker.Graph.Build.Facts.{
  entry_key, server_key, host_key, server_detail, reach_label, has_factor,
}
use ianua_broker.Graph.Build.Draft.{
  add_edge, add_profile, Draft, host_node, set_node, default_node, add_profiles, add_asset,
  add_assets, add_socket, asset_host, socket_node,
}
use ianua_broker.Prelude.{
  num_Ord, text_Ord, pair_Ord, list_Ord, [], ◌∷◌, text_Eq, num_Eq, pair_Eq, option_Eq, list_Eq,
  if_rule, List, All, ◌&&◌, not, ◌==◌,
}
use ianua_broker.Graph.Build.Good.{
  Good, Knows, default_node-Good, set_node-Knows, Good-trans, set_node-Good, add_edge-Good,
  default_node-Knows, Good-refl,
}
use mathlib.Core.Option
use ianua_broker.Discovery.Reach.{IpAddress, classify_reachability, is_loopback_tier}
use ianua_broker.Inventory.Model.{Asset, is_agent_host, is_socket}

abbrev pub ServerKnown : Draft → TrustProfile → Type 0
ServerKnown d profile = Knows d (server_key profile.subject)

add_profile-Good :
    (profile : TrustProfile) (d : Draft)
    → Good d (add_profile profile d) × Knows (add_profile profile d) (server_key profile.subject)
unfolding add_profile server_key entry_key host_key
add_profile-Good profile d =
    let server : Node = record {
      id = server_key profile.subject;
      kind = mcp_server;
      label = profile.server_name;
      detail = server_detail profile;
    } in
    let host = host_node profile.location profile.host in
    let d1 = set_node server d in
    let d2 = default_node host d1 in
    let edge : Edge = record {
      src = host.id;
      dst = server.id;
      kind = hosts;
      detail = "declares";
    } in
    let d3 = add_edge edge d2 in
    let has_server : Knows d2 server.id =
      (default_node-Good host d1).extends server.id (set_node-Knows server d) in
    let hosted : Good d d3 = Good-trans (set_node-Good server d) (
      Good-trans (default_node-Good host d1)
        (add_edge-Good edge d2 (default_node-Knows host d1) has_server)) in
    let server_there : Knows d3 server.id =
      (add_edge-Good edge d2 (default_node-Knows host d1) has_server).extends server.id
        has_server in
    let exposed : Node = record {
      id = entry_key profile.subject;
      kind = entry;
      label = profile.server_name;
      detail = ("reach", reach_label profile) ∷ ("surface", "network bind hint") ∷ [];
    } in
    let d4 = set_node exposed d3 in
    let reached : Edge = record {
      src = exposed.id;
      dst = server.id;
      kind = reaches;
      detail = reach_label profile;
    } in
    let last : Good d4 (add_edge reached d4) =
      add_edge-Good reached d4 (set_node-Knows exposed d3)
        ((set_node-Good exposed d3).extends server.id server_there) in
    if_rule (λ (d' : Draft). Good d d' × Knows d' server.id) (has_factor profile exposure_reach)
      (add_edge reached d4) d3
      (λ _. (
        Good-trans hosted (Good-trans (set_node-Good exposed d3) last),
        last.extends server.id ((set_node-Good exposed d3).extends server.id server_there),
      ))
      (λ _. (hosted, server_there))

pub add_profiles-Good :
    (profiles : List TrustProfile) (d : Draft)
    → Good d (add_profiles profiles d) × All (ServerKnown (add_profiles profiles d)) profiles
unfolding add_profiles
add_profiles-Good [] d = (Good-refl d, tt)
add_profiles-Good (profile ∷ rest) d =
    let first = add_profile-Good profile d in
    let later = add_profiles-Good rest (add_profile profile d) in
    (Good-trans first.0 later.0, (later.0.extends (server_key profile.subject) first.1, later.1))

module _ (ip_address : IpAddress) where
  add_asset-Good : (asset : Asset) (d : Draft) → Good d (add_asset ip_address asset d)
  unfolding add_asset add_socket
  add_asset-Good asset d =
      let bound = Option.get_or asset.bind_addr "" in
      let host = host_node asset.location (asset_host asset) in
      let tier = classify_reachability ip_address bound in
      if_rule (Good d) (is_agent_host asset.kind && not (asset.location == ""))
        (default_node host d) _ (λ _. default_node-Good host d)
        λ _.
          if_rule (Good d) (is_socket asset.source && not (bound == ""))
            (add_socket ip_address asset bound d) d
            (λ _.
              if_rule (Good d) (is_loopback_tier tier) d (default_node (socket_node asset tier) d)
                (λ _. Good-refl d) (λ _. default_node-Good (socket_node asset tier) d))
            (λ _. Good-refl d)

  pub add_assets-Good : (assets : List Asset) (d : Draft) → Good d (add_assets ip_address assets d)
  unfolding add_assets
  add_assets-Good [] d = Good-refl d
  add_assets-Good (asset ∷ rest) d =
      Good-trans (add_asset-Good asset d) (add_assets-Good rest (add_asset ip_address asset d))
