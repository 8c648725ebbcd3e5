-- ===== src/Graph/Build/Assemble.antt =====
-- src/mcpscan/graph/build.py: what privileged servers can act on, and the whole of `build_graph`.
use ianua_broker.Graph.Model.{
  edge_kind_Eq, edge_Eq, can_act, Edge, Node, edge_kind_value, node_kind_value, AttackGraph,
  CredRef,
}
use ianua_broker.Trust.Model.{tool_privilege, TrustProfile}
use ianua_broker.Graph.Build.Facts.{
  server_key, has_factor, target_key, has_dangerous_tools, local_shell_id, local_shell_label,
}
use mathlib.Core.Option
use ianua_broker.Graph.Build.Draft.{Draft, add_edge, default_node, add_profiles, add_assets}
use ianua_broker.Domain.{grade_a}
use ianua_broker.Prelude.{
  num_Ord, text_Ord, pair_Ord, list_Ord, false, none, some, [], ◌∷◌, text_Eq, num_Eq, pair_Eq,
  option_Eq, list_Eq, Dict, String, get, sorted, List, Option, if◌then◌else◌, keys, map, values,
}
use ianua_broker.Discovery.Reach.{IpAddress}
use ianua_broker.Graph.Build.Credentials.{
  Credentials, targets_of, CredKey, group_credentials, cred_id_of, target_node, add_credentials,
  connect_credentials,
}
use ianua_broker.Inventory.Model.{Inventory, Asset}

abbrev pub can_act_on : TrustProfile → String → String → Edge
can_act_on profile target_id detail = record {
  src = server_key profile.subject;
  dst = target_key target_id;
  kind = can_act;
  detail = detail;
}

unfoldable pub act_on_targets : TrustProfile → List (String × String) → Draft → Draft
unfolding add_edge server_key target_key
act_on_targets profile [] draft = draft
act_on_targets profile ((target_id, label) ∷ rest) draft =
    act_on_targets profile rest
      (add_edge (can_act_on profile target_id "wields privileged tools") draft)

-- `cred_targets.get(key, ())`
unfoldable pub targets_at : (String → String) → Credentials → CredKey → List (String × String)
unfolding get targets_of
targets_at upper credentials key = elim (get key credentials) [
  | none ↦ []
  | some cred ↦ targets_of upper (keys cred.counts)
]

-- The loop over the credentials of one profile.
unfoldable pub act_with_refs :
    (String → String) → Credentials → TrustProfile → List CredRef → Draft → Draft
unfolding act_on_targets targets_at
act_with_refs upper credentials profile [] draft = draft
act_with_refs upper credentials profile (ref ∷ rest) draft =
    act_with_refs upper credentials profile rest
      (act_on_targets profile (targets_at upper credentials (cred_id_of ref)) draft)

unfoldable pub act_on_shell : TrustProfile → Draft → Draft
unfolding default_node add_edge server_key target_key
act_on_shell profile draft =
    add_edge (can_act_on profile local_shell_id "auto-approved dangerous tool")
      (default_node (target_node local_shell_id local_shell_label "dangerous-tool") draft)

abbrev pub SecretHolders : Type 0
SecretHolders = Dict String (List CredRef)

-- The last loop over the profiles.
unfoldable pub act_with_profiles :
    (String → String) → SecretHolders → Credentials → List TrustProfile → Draft → Draft
unfolding get has_factor has_dangerous_tools act_with_refs act_on_shell
act_with_profiles upper secret_holders credentials [] draft = draft
act_with_profiles upper secret_holders credentials (profile ∷ rest) draft =
    let wielded =
      if has_factor profile tool_privilege
      then act_with_refs upper credentials profile
          (Option.get_or (get profile.subject secret_holders) []) draft
      else draft in
    act_with_profiles upper secret_holders credentials rest
      (if has_dangerous_tools profile then act_on_shell profile wielded else wielded)

abbrev pub node_key : Node → String × String
node_key node = (node_kind_value node.kind, node.id)

abbrev pub edge_key : Edge → String × (String × (String × String))
edge_key edge = (edge_kind_value edge.kind, (edge.src, (edge.dst, edge.detail)))

abbrev pub empty_draft : Draft
empty_draft = record { nodes = []; edges = [] }

abbrev pub graph_schema_version : String
graph_schema_version = "1.0"

-- The nodes and edges, sorted; `paths` and the grade have their defaults.
unfoldable pub graph_of : Draft → AttackGraph
unfolding sorted node_kind_value edge_kind_value
graph_of draft = record {
  schema_version = graph_schema_version;
  nodes = sorted node_key (values draft.nodes);
  edges = sorted edge_key draft.edges;
  paths = [];
  overall_grade = grade_a;
  truncated = false;
}

unfoldable pub inventory_assets : Option Inventory → List Asset
inventory_assets none = []
inventory_assets (some inventory) = inventory.assets

unfoldable pub credentials_of : List TrustProfile → SecretHolders → Credentials
unfolding group_credentials server_key
credentials_of profiles secret_holders =
    group_credentials (map (λ (p : TrustProfile). server_key p.subject) profiles) secret_holders []

module _ (upper : String → String) (ip_address : IpAddress) where
  unfoldable pub build_draft : List TrustProfile → Option Inventory → SecretHolders → Draft
  unfolding add_profiles add_assets inventory_assets credentials_of add_credentials
      connect_credentials act_with_profiles
  build_draft profiles inventory secret_holders =
      let credentials = credentials_of profiles secret_holders in
      act_with_profiles upper secret_holders credentials profiles (
        connect_credentials upper credentials (
          add_credentials credentials (
            add_assets ip_address (inventory_assets inventory)
              (add_profiles profiles empty_draft))))

  unfoldable pub build_graph : List TrustProfile → Option Inventory → SecretHolders → AttackGraph
  unfolding build_draft graph_of
  build_graph profiles inventory secret_holders =
      graph_of (build_draft profiles inventory secret_holders)
