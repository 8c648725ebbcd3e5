-- ===== src/Graph/Chain.antt =====
-- src/mcpscan/graph/paths.py: the severity and the texts of one chain. A chain comes with the nodes
-- that its ids stand for; `str.lower` is a parameter.
use ianua_broker.Graph.Model.{
  entry, mcp_server, credential, shared_with, can_act, edge_kind_Eq, EdgeKind, Node, AttackPath,
  is_entry, is_mcp_server,
}
use ianua_broker.Domain.{critical, high, medium, Severity}
use ianua_broker.Drift.Facts.{get_default}
use ianua_broker.Prelude.{
  num_Ord, text_Ord, pair_Ord, list_Ord, true, false, none, some, [], ◌∷◌, text_Eq, num_Eq, pair_Eq,
  option_Eq, list_Eq, List, String, concat, has_part, join, of_pairs, Bool, Dict, Option, get, has,
  if◌then◌else◌, ◌++◌, any, contains, is_empty, option_beq, ◌==◌, ◌||◌, ◌&&◌,
}

-- `_PIVOT_EDGES`
abbrev pub is_pivot : EdgeKind → Bool
is_pivot shared_with = true
is_pivot can_act = true
is_pivot _ = false

unfoldable pub is_actionable : List EdgeKind → Bool
is_actionable edge_kinds = any is_pivot edge_kinds

abbrev pub autonomy_key : String
autonomy_key = "factor:autonomy"

abbrev pub privilege_key : String
privilege_key = "factor:tool_privilege"

unfoldable pub has_key : Node → String → Bool
has_key node key = any (λ (p : String × String). p.0 == key) node.detail

abbrev pub node_detail : Node → Dict String String
node_detail node = of_pairs node.detail

unfoldable pub privilege_tag : Option String → List String
unfolding has_part
privilege_tag none = []
privilege_tag (some privilege) =
    (if has_part privilege "dangerous" then "dangerous tools" else "privileged") ∷ []

unfoldable pub server_annotation : Node → String
unfolding of_pairs has get privilege_tag join concat
server_annotation node =
    let detail = node_detail node in
    let autonomous = if has autonomy_key detail then "autonomous" ∷ [] else [] in
    let tags = autonomous ++ privilege_tag (get privilege_key detail) in
    if is_empty tags then "" else concat (" (" ∷ join ", " tags ∷ ")" ∷ [])

abbrev pub reach_detail : Node → String
reach_detail node = get_default "reach" "" (node_detail node)

-- One segment of the summary; the edge is the one that leaves the node.
unfoldable pub segment_of : Node → Option EdgeKind → String
unfolding server_annotation concat of_pairs get
segment_of node out_edge = elim node.kind [
  | entry ↦ concat (
      "exposed '"
      ∷ node.label
      ∷ "'"
      ∷ (if reach_detail node == "" then "" else concat (" (" ∷ reach_detail node ∷ " bind)" ∷ []))
      ∷ [])
  | mcp_server ↦ concat ("'" ∷ node.label ∷ "'" ∷ server_annotation node ∷ [])
  | credential ↦ concat (
      (if option_beq out_edge (some shared_with) then "shared credential " else "credential ")
      ∷ node.label
      ∷ [])
  | _ ↦ node.label
]

-- An entry and the server that shares its surface read as one segment.
abbrev pub collapses : Node → Node → Bool
collapses node next = is_entry node.kind && (is_mcp_server next.kind && next.label == node.label)

abbrev pub first_kind : List EdgeKind → Option EdgeKind
first_kind [] = none
first_kind (kind ∷ rest) = some kind

abbrev pub later_kinds : List EdgeKind → List EdgeKind
later_kinds [] = []
later_kinds (kind ∷ rest) = rest

unfoldable pub segments_of : List Node → List EdgeKind → List String
unfolding segment_of
segments_of [] edges = []
segments_of (node ∷ []) edges = segment_of node (first_kind edges) ∷ []
segments_of (node ∷ next ∷ rest) edges =
    let after_both = segments_of rest (later_kinds (later_kinds edges)) in
    let after_node = segments_of (next ∷ rest) (later_kinds edges) in
    segment_of node (first_kind edges) ∷ (if collapses node next then after_both else after_node)

unfoldable pub summarize : List Node → List EdgeKind → String
unfolding segments_of join
summarize nodes edges = join " -> " (segments_of nodes edges)

-- `path_nodes[-1]` and `path_nodes[-2]`
abbrev pub ending : Node → List Node → Node × Option Node
ending node [] = (node, none)
ending node (next ∷ []) = (next, some node)
ending node (next ∷ after ∷ rest) = ending next (after ∷ rest)

abbrev pub last_kind : List EdgeKind → Option EdgeKind
last_kind [] = none
last_kind (kind ∷ []) = some kind
last_kind (kind ∷ next ∷ rest) = last_kind (next ∷ rest)

unfoldable pub shared_reason : List EdgeKind → List String
shared_reason edges =
    if contains shared_with edges
    then "a credential shared across servers lets the attacker pivot from the exposed server to another that holds the same secret"
      ∷ []
    else []

unfoldable pub acting_reason : Node → List String
unfolding has_key concat
acting_reason acting =
    if has_key acting autonomy_key
    then concat (
        "'" ∷ acting.label
        ∷ "' auto-approves dangerous/wildcard tools, so it acts on the target with no human in the loop"
        ∷ [])
      ∷ []
    else if has_key acting privilege_key
    then concat (
        "'" ∷ acting.label
        ∷ "' wields dangerous/wildcard tools (behind a human approval gate) to act on the target"
        ∷ [])
      ∷ []
    else []

unfoldable pub act_reasons : List EdgeKind → Option Node → List String
unfolding acting_reason
act_reasons edges none = []
act_reasons edges (some acting) =
    if option_beq (last_kind edges) (some can_act) then acting_reason acting else []

unfoldable pub rationale_of : Node → List Node → List EdgeKind → String
unfolding shared_reason act_reasons concat join
rationale_of node rest edges =
    let ends = ending node rest in
    let reasons = shared_reason edges ++ act_reasons edges ends.1 in
    concat (
      "Chain from an exposed surface to "
      ∷ ends.0.label
      ∷ ": "
      ∷ join "; "
          (if is_empty reasons then "a privileged tool can act on the target" ∷ [] else reasons)
      ∷ "."
      ∷ [])

module _ (lower : String → String) where
  -- The `reach` of the first entry of the chain.
  unfoldable pub entry_reach : List Node → String
  unfolding of_pairs get
  entry_reach [] = ""
  entry_reach (node ∷ rest) =
      let later = entry_reach rest in
      if is_entry node.kind then lower (reach_detail node) else later

  unfoldable pub reach_severity : String → Severity
  unfolding has_part
  reach_severity reach =
      if has_part reach "wildcard" || has_part reach "public"
      then critical
      else if has_part reach "private" || has_part reach "lan"
      then high
      else medium

  unfoldable pub path_severity : List Node → List EdgeKind → Severity
  unfolding entry_reach reach_severity
  path_severity nodes edges =
      if contains shared_with edges then critical else reach_severity (entry_reach nodes)

  -- `none` is the IndexError of a chain without nodes.
  unfoldable pub make_path : List String → List EdgeKind → List Node → Option AttackPath
  unfolding path_severity summarize rationale_of
  make_path ids edges [] = none
  make_path ids edges (node ∷ rest) = some (record {
    nodes = ids;
    edges = edges;
    severity = path_severity (node ∷ rest) edges;
    summary = summarize (node ∷ rest) edges;
    rationale = rationale_of node rest edges;
  })
