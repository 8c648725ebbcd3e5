-- ===== src/Graph/Build/Result.antt =====
-- The graph that `build_graph` returns connects only its own nodes, so its analysis does not raise.
use mathlib.Core.Option
use ianua_broker.Graph.Build.Draft.{add_edge, Draft, default_node, add_profiles, add_assets}
use ianua_broker.Trust.Model.{tool_privilege, TrustProfile}
use ianua_broker.Prelude.{
  num_Ord, text_Ord, pair_Ord, list_Ord, refl, none, some, [], ◌∷◌, text_Eq, num_Eq, pair_Eq,
  option_Eq, list_Eq, String, List, All, Option, All-map_pred, get, if◌then◌else◌, keys, ◌≡◌,
  All-get_value, if_rule, map, contains-All, All-both, num_Ord, text_Ord, pair_Ord, list_Ord, has,
  contains, sorted, true, All-sorted, values, any, ◌==◌, ap, ◌||◌, Dict, arith, ◌∙◌, any-sorted,
}
use ianua_broker.Graph.Build.Assemble.{
  SecretHolders, act_on_shell, act_on_targets, act_with_profiles, act_with_refs, targets_at,
  build_draft, credentials_of, can_act_on, empty_draft, inventory_assets, build_graph, graph_of,
  node_key, edge_key,
}
use ianua_broker.Discovery.Reach.{IpAddress}
use ianua_broker.Graph.Build.Credentials.{
  Credentials, CredKey, Credential, target_node, cred_id_of, targets_of, add_credentials,
  connect_credentials,
}
use ianua_broker.Graph.Model.{CredRef, AttackGraph, Node, Edge}
use ianua_broker.Graph.Build.Closed.{ServerKnown, add_profiles-Good, add_assets-Good}
use ianua_broker.Graph.Build.Good.{
  Good, Good-refl, Knows, Good-trans, add_edge-Good, default_node-Good, default_node-Knows,
}
use ianua_broker.Inventory.Model.{Inventory}
use ianua_broker.Graph.Build.Held.{
  TargetsKnown, HeldBy, group_credentials-HeldBy, add_credentials-Good, connect_credentials-Good,
}
use ianua_broker.Graph.Build.Facts.{
  local_shell_id, target_key, local_shell_label, server_key, has_factor, has_dangerous_tools,
  cred_key,
}
use ianua_broker.Graph.Search.{analyze_graph}
use ianua_broker.Graph.Search.Closed.{analyze_graph-returns}

module _ (upper : String → String) (secret_holders : SecretHolders)
    (credentials : Credentials) where
  act_on_targets-Good :
      (profile : TrustProfile) (targets : List (String × String)) (d : Draft)
      → ServerKnown d profile
      → All (λ (t : String × String). Knows d (target_key t.0)) targets
      → Good d (act_on_targets profile targets d)
  unfolding act_on_targets
  act_on_targets-Good profile [] d known there = Good-refl d
  act_on_targets-Good profile ((target_id, label) ∷ rest) d known there =
      let edge = can_act_on profile target_id "wields privileged tools" in
      let first = add_edge-Good edge d known there.0 in
      Good-trans first (
        act_on_targets-Good profile rest (add_edge edge d)
          (first.extends (server_key profile.subject) known)
          (All-map_pred rest (λ t h. first.extends (target_key t.0) h) there.1))

  abbrev AllTargets : Draft → Type 0
  AllTargets d = All (λ (c : CredKey × Credential). TargetsKnown upper d c.1) credentials

  AllTargets-Good : {d d' : Draft} → Good d d' → AllTargets d → AllTargets d'
  AllTargets-Good good there =
      All-map_pred credentials
        (λ (c : CredKey × Credential) h.
          All-map_pred (targets_of upper (keys c.1.counts)) (λ t k. good.extends (target_key t.0) k)
            h)
        there

  targets_at-known :
      (key : CredKey) (d : Draft)
      → AllTargets d
      → All (λ (t : String × String). Knows d (target_key t.0)) (targets_at upper credentials key)
  unfolding targets_at
  targets_at-known key d there =
      go (get key credentials) (All-get_value (TargetsKnown upper d) key credentials there)
    where
      go :
          (m : Option Credential)
          → ((cred : Credential) → m ≡ some cred → TargetsKnown upper d cred)
          → All
              (λ (t : String × String). Knows d (target_key t.0))
              (elim m as (λ _. List (String × String)) [
                | none ↦ []
                | some cred ↦ targets_of upper (keys cred.counts)
              ])
      go none k = tt
      go (some cred) k = k cred refl

  act_with_refs-Good :
      (profile : TrustProfile) (refs : List CredRef) (d : Draft)
      → ServerKnown d profile
      → AllTargets d
      → Good d (act_with_refs upper credentials profile refs d)
  unfolding act_with_refs
  act_with_refs-Good profile [] d known there = Good-refl d
  act_with_refs-Good profile (ref ∷ rest) d known there =
      let targets = targets_at upper credentials (cred_id_of ref) in
      let first =
        act_on_targets-Good profile targets d known (targets_at-known (cred_id_of ref) d there) in
      Good-trans first (
        act_with_refs-Good profile rest (act_on_targets profile targets d)
          (first.extends (server_key profile.subject) known) (AllTargets-Good first there))

  act_on_shell-Good :
      (profile : TrustProfile) (d : Draft) → ServerKnown d profile → Good d (act_on_shell profile d)
  unfolding act_on_shell
  act_on_shell-Good profile d known =
      let node = target_node local_shell_id local_shell_label "dangerous-tool" in
      let first = default_node-Good node d in
      Good-trans first (
        add_edge-Good (can_act_on profile local_shell_id "auto-approved dangerous tool")
          (default_node node d) (first.extends (server_key profile.subject) known)
          (default_node-Knows node d))

  act_with_profiles-Good :
      (profiles : List TrustProfile) (d : Draft)
      → All (ServerKnown d) profiles
      → AllTargets d
      → Good d (act_with_profiles upper secret_holders credentials profiles d)
  unfolding act_with_profiles
  act_with_profiles-Good [] d known there = Good-refl d
  act_with_profiles-Good (profile ∷ rest) d known there =
      let refs = Option.get_or (get profile.subject secret_holders) [] in
      let wielded : Draft =
        if has_factor profile tool_privilege
        then act_with_refs upper credentials profile refs d
        else d in
      let first : Good d wielded =
        if_rule (Good d) (has_factor profile tool_privilege)
          (act_with_refs upper credentials profile refs d) d
          (λ _. act_with_refs-Good profile refs d known.0 there) (λ _. Good-refl d) in
      let second : Good d
          (if has_dangerous_tools profile then act_on_shell profile wielded else wielded) =
        if_rule (Good d) (has_dangerous_tools profile) (act_on_shell profile wielded) wielded
          (λ _. Good-trans first (
            act_on_shell-Good profile wielded (first.extends (server_key profile.subject) known.0)))
          (λ _. first) in
      Good-trans second (
        act_with_profiles-Good rest _
          (All-map_pred rest (λ p h. second.extends (server_key p.subject) h) known.1)
          (AllTargets-Good second there))

module _ (upper : String → String) (ip_address : IpAddress) (profiles : List TrustProfile)
    (inventory : Option Inventory) (secret_holders : SecretHolders) where
  credentials_of-placed :
      (d : Draft)
      → All (ServerKnown d) profiles
      → All
          (λ (c : CredKey × Credential). HeldBy (λ subject. Knows d (server_key subject)) c.1)
          (credentials_of profiles secret_holders)
  unfolding credentials_of server_key
  credentials_of-placed d known =
      let ids = map (λ (p : TrustProfile). server_key p.subject) profiles in
      group_credentials-HeldBy (λ subject. Knows d (server_key subject)) ids secret_holders []
        (λ subject here.
          contains-All (Knows d) (server_key subject) ids (mapped profiles known) here)
        tt
    where
      mapped :
          (ps : List TrustProfile)
          → All (ServerKnown d) ps
          → All (Knows d) (map (λ (p : TrustProfile). server_key p.subject) ps)
      mapped [] h = tt
      mapped (p ∷ ps) h = (h.0, mapped ps h.1)

  build_draft-Good :
      Good empty_draft (build_draft upper ip_address profiles inventory secret_holders)
  unfolding build_draft
  build_draft-Good =
      let credentials = credentials_of profiles secret_holders in
      let assets = inventory_assets inventory in
      let servers = add_profiles-Good profiles empty_draft in
      let d1 = add_profiles profiles empty_draft in
      let surfaces = add_assets-Good ip_address assets d1 in
      let d2 = add_assets ip_address assets d1 in
      let creds = add_credentials-Good credentials d2 in
      let d3 = add_credentials credentials d2 in
      let both = Good-trans surfaces creds.0 in
      let known : All (ServerKnown d3) profiles =
        All-map_pred profiles (λ p h. both.extends (server_key p.subject) h) servers.1 in
      let joined = connect_credentials-Good upper credentials d3 (
        All-both (λ (c : CredKey × Credential). Knows d3 (cred_key c.0))
          (λ (c : CredKey × Credential). HeldBy (λ subject. Knows d3 (server_key subject)) c.1)
          credentials creds.1 (credentials_of-placed d3 known)) in
      let d4 = connect_credentials upper credentials d3 in
      Good-trans servers.0 (
        Good-trans both (
          Good-trans joined.0 (
            act_with_profiles-Good upper secret_holders credentials profiles d4
              (All-map_pred profiles (λ p h. joined.0.extends (server_key p.subject) h) known)
              joined.1)))

-- A node of the draft is a node of the sorted list.
Knows-sorted :
    (draft : Draft) (id : String)
    → All (λ (p : String × Node). p.1.id ≡ p.0) draft.nodes
    → Knows draft id
    → contains id (map (λ (n : Node). n.id) (sorted node_key (values draft.nodes))) ≡ true
unfolding has get
Knows-sorted draft id named known =
    let at_id = λ (n : Node). n.id == id in
    as_any (sorted node_key (values draft.nodes))
    ∙ any-sorted node_key at_id (values draft.nodes)
    ∙ in_values draft.nodes named known
  where
    as_any :
        (ns : List Node)
        → contains id (map (λ (n : Node). n.id) ns) ≡ any (λ (n : Node). n.id == id) ns
    as_any [] = refl
    as_any (n ∷ ns) = ap (λ b. n.id == id || b) (as_any ns)

    in_values :
        (nodes : Dict String Node)
        → All (λ (p : String × Node). p.1.id ≡ p.0) nodes
        → has id nodes ≡ true
        → any (λ (n : Node). n.id == id) (values nodes) ≡ true
    in_values [] h k = absurd (cc)
    in_values ((key, node) ∷ nodes) h k = ground (arith, h.0, in_values nodes h.1)

-- Both ends of every edge of the built graph are nodes of it.
pub build_graph-connected :
    (upper : String → String) (ip_address : IpAddress) (profiles : List TrustProfile)
    (inventory : Option Inventory) (secret_holders : SecretHolders)
    → All
        (λ (e : Edge).
          (contains e.src (
              map
                (λ (n : Node). n.id)
                (build_graph upper ip_address profiles inventory secret_holders).nodes)
            ≡ true)
          × (contains e.dst (
                map
                  (λ (n : Node). n.id)
                  (build_graph upper ip_address profiles inventory secret_holders).nodes)
              ≡ true))
        (build_graph upper ip_address profiles inventory secret_holders).edges
unfolding build_graph graph_of
build_graph-connected upper ip_address profiles inventory secret_holders =
    let draft = build_draft upper ip_address profiles inventory secret_holders in
    let well =
      (build_draft-Good upper ip_address profiles inventory secret_holders).keeps
        (record { named = tt; ends = tt }) in
    All-sorted edge_key _ draft.edges (
      All-map_pred draft.edges
        (λ e (s, t). (Knows-sorted draft e.src well.named s, Knows-sorted draft e.dst well.named t))
        well.ends)

-- The analysis of a built graph never raises: it returns the same nodes and edges, with paths.
pub analyze_graph-build_graph :
    (lower upper : String → String) (ip_address : IpAddress) (profiles : List TrustProfile)
    (inventory : Option Inventory) (secret_holders : SecretHolders)
    → (analyzed : AttackGraph) × (analyze_graph lower
          (build_graph upper ip_address profiles inventory secret_holders)
        ≡ some analyzed)
      × (analyzed.nodes ≡ (build_graph upper ip_address profiles inventory secret_holders).nodes)
      × (analyzed.edges ≡ (build_graph upper ip_address profiles inventory secret_holders).edges)
analyze_graph-build_graph lower upper ip_address profiles inventory secret_holders =
    analyze_graph-returns lower (build_graph upper ip_address profiles inventory secret_holders) (
      All-map_pred (build_graph upper ip_address profiles inventory secret_holders).edges
        (λ e (s, t). t) (build_graph-connected upper ip_address profiles inventory secret_holders))
