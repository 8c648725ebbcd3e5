-- ===== src/Graph/Search.antt =====
-- src/mcpscan/graph/paths.py: the bounded depth-first search for actionable chains, and the grade of
-- the graph. `visited` has the same members as `nodes_acc`, since both gain and lose a node together,
-- so the list stands for both; `hops` counts the edges left, MAX_HOPS - len(edges_acc). `none` is the
-- KeyError of an edge to a node that is not in the graph.
pub mod Spec
pub mod Sound
pub mod Grows
pub mod Steps
pub mod Complete
pub mod Total
pub mod Closed
pub mod Exact
use ianua_broker.Graph.Model.{
  edge_kind_Eq, EdgeKind, AttackGraph, AttackPath, Node, edge_kind_value, rank_key, Edge, is_target,
  is_entry,
}
use ianua_broker.Domain.{
  critical, high, medium, low, info, grade_a, grade_b, grade_c, grade_d, grade_f, Severity, weight,
  Grade,
}
use mathlib.Core.Option
use ianua_broker.Prelude.{
  num_Ord, text_Ord, pair_Ord, list_Ord, zero, suc, refl, inl, inr, true, false, none, some, [],
  ◌∷◌, text_Eq, num_Eq, pair_Eq, option_Eq, list_Eq, List, String, get, of_pairs, sorted, ℕ, Dict,
  Option, put, ◌*◌, Bool, add_member, if◌then◌else◌, map, ◌++◌, any, contains, leb, ltb, select,
  take, length, not, ◌||◌, ◌&&◌,
}
use ianua_broker.Graph.Chain.{is_actionable, make_path}

abbrev pub max_hops : ℕ
max_hops = 6

abbrev pub max_paths : ℕ
max_paths = 50

abbrev pub enumeration_ceiling : ℕ
enumeration_ceiling = max_paths * 20

abbrev pub Successors : Type 0
Successors = List (EdgeKind × String)

abbrev pub successors_at : String → Dict String Successors → Successors
successors_at src adjacency = Option.get_or (get src adjacency) []

-- `seen[edge.src].add((edge.kind, edge.dst))`
unfoldable pub add_edges : List Edge → Dict String Successors → Dict String Successors
unfolding get put add_member
add_edges [] seen = seen
add_edges (edge ∷ rest) seen =
    add_edges rest
      (put edge.src (add_member (edge.kind, edge.dst) (successors_at edge.src seen)) seen)

abbrev pub successor_key : EdgeKind × String → String × String
successor_key (kind, dst) = (edge_kind_value kind, dst)

unfoldable pub adjacency_of : List Edge → Dict String Successors
unfolding add_edges sorted edge_kind_value
adjacency_of edges =
    map (λ (p : String × Successors). (p.0, sorted successor_key p.1)) (add_edges edges [])

-- What the nested function `visit` changes.
pub record Found : Type 0 where
  pub found : List AttackPath
  pub ceiling_hit : Bool
  pub depth_capped : Bool

abbrev pub nothing_found : Found
nothing_found = record { found = []; ceiling_hit = false; depth_capped = false }

abbrev pub Visit : Type 0
Visit = String → List String → List EdgeKind → Found → Option Found

-- The loop over the successors of a node.
unfoldable pub try_successors :
    Visit → List String → List EdgeKind → Successors → Found → Option Found
try_successors visit nodes edges [] st = some st
try_successors visit nodes edges ((kind, dst) ∷ rest) st =
    let skipped = try_successors visit nodes edges rest st in
    let tried =
      elim (visit dst (nodes ++ dst ∷ []) (edges ++ kind ∷ []) st) as (λ _. Option Found) [
        | none ↦ none
        | some st' ↦
            let onward = try_successors visit nodes edges rest st' in
            if st'.ceiling_hit then some st' else onward
      ] in
    if contains dst nodes then skipped else tried

-- `[node_by_id[i] for i in ids]`
unfoldable pub nodes_at : Dict String Node → List String → Option (List Node)
unfolding get
nodes_at node_by_id [] = some []
nodes_at node_by_id (id ∷ ids) =
    let later = nodes_at node_by_id ids in
    elim (get id node_by_id) [ none ↦ none | some node ↦ Option.map (λ ns. node ∷ ns) later ]

module _ (lower : String → String) (node_by_id : Dict String Node)
    (adjacency : Dict String Successors) where
  unfoldable pub path_of : List String → List EdgeKind → Option (List Node) → Option AttackPath
  unfolding make_path
  path_of nodes edges none = none
  path_of nodes edges (some ns) = make_path lower nodes edges ns

  unfoldable pub path_at : List String → List EdgeKind → Option AttackPath
  unfolding nodes_at path_of
  path_at nodes edges = path_of nodes edges (nodes_at node_by_id nodes)

  abbrev pub is_chain : List String → List EdgeKind → Bool
  is_chain nodes edges = leb 2 (length nodes) && is_actionable edges

  -- The branch of a target: record the chain if it is actionable, and stop.
  unfoldable pub record_chain : List String → List EdgeKind → Found → Option Found
  unfolding path_at is_actionable
  record_chain nodes edges st =
      if is_chain nodes edges
      then (if leb enumeration_ceiling (length st.found)
          then some (record st { ceiling_hit = true })
          else Option.map (λ path. record st { found = st.found ++ path ∷ [] })
              (path_at nodes edges))
      else some st

  -- The branch of the depth cap.
  unfoldable pub stop_deep : Successors → List String → Found → Option Found
  stop_deep successors nodes st = some (
      if any (λ (s : EdgeKind × String). not (contains s.1 nodes)) successors
      then record st { depth_capped = true }
      else st)

  unfoldable pub visit : ℕ → Visit
  unfolding get record_chain stop_deep try_successors
  visit zero current nodes edges st =
      if st.ceiling_hit then some st else elim (get current node_by_id) [
        | none ↦ none
        | some node ↦
            if is_target node.kind
            then record_chain nodes edges st
            else stop_deep (successors_at current adjacency) nodes st
      ]
  visit (suc hops) current nodes edges st =
      let further = try_successors (visit hops) nodes edges (successors_at current adjacency) st in
      if st.ceiling_hit then some st else elim (get current node_by_id) [
        | none ↦ none
        | some node ↦ if is_target node.kind then record_chain nodes edges st else further
      ]

  -- The loop over the entries.
  unfoldable pub visit_entries : List String → Found → Option Found
  unfolding visit
  visit_entries [] st = some st
  visit_entries (entry_id ∷ rest) st = elim (visit max_hops entry_id (entry_id ∷ []) [] st) [
    | none ↦ none
    | some st' ↦ visit_entries rest st'
  ]

abbrev pub index_nodes : List Node → Dict String Node
index_nodes nodes = of_pairs (map (λ (n : Node). (n.id, n)) nodes)

unfoldable pub entries_of : List Node → List String
unfolding sorted
entries_of nodes =
    sorted (λ (id : String). id)
      (map (λ (n : Node). n.id) (select (λ (n : Node). is_entry n.kind) nodes))

unfoldable pub search_graph : (String → String) → List Node → List Edge → Option Found
unfolding of_pairs adjacency_of entries_of visit_entries
search_graph lower nodes edges =
    visit_entries lower (index_nodes nodes) (adjacency_of edges) (entries_of nodes) nothing_found

unfoldable pub ranked : Found → List AttackPath × Bool
unfolding sorted rank_key
ranked st = (
  take max_paths (sorted rank_key st.found),
  st.ceiling_hit || st.depth_capped || ltb max_paths (length st.found),
)

-- `_enumerate`
unfoldable pub enumerate_chains :
    (String → String) → List Node → List Edge → Option (List AttackPath × Bool)
unfolding search_graph ranked
enumerate_chains lower nodes edges = Option.map ranked (search_graph lower nodes edges)

unfoldable pub enumerate_paths :
    (String → String) → List Node → List Edge → Option (List AttackPath)
unfolding enumerate_chains
enumerate_paths lower nodes edges =
    Option.map (λ (r : List AttackPath × Bool). r.0) (enumerate_chains lower nodes edges)

-- `_SEVERITY_GRADE`
unfoldable pub severity_grade : Severity → Grade
severity_grade critical = grade_f
severity_grade high = grade_d
severity_grade medium = grade_c
severity_grade low = grade_b
severity_grade info = grade_a

-- `max(paths, key=...)`: of equal ones the first
unfoldable pub worst_path : AttackPath → List AttackPath → AttackPath
unfolding weight
worst_path best [] = best
worst_path best (path ∷ rest) =
    worst_path (if ltb (weight best.severity) (weight path.severity) then path else best) rest

unfoldable pub overall_grade_for_paths : List AttackPath → Grade
unfolding worst_path severity_grade
overall_grade_for_paths [] = grade_a
overall_grade_for_paths (path ∷ rest) = severity_grade (worst_path path rest).severity

-- `replace(graph, paths=..., overall_grade=..., truncated=...)`
unfoldable pub with_paths : AttackGraph → List AttackPath × Bool → AttackGraph
unfolding overall_grade_for_paths
with_paths graph (paths, truncated) = record {
  schema_version = graph.schema_version;
  nodes = graph.nodes;
  edges = graph.edges;
  paths = paths;
  overall_grade = overall_grade_for_paths paths;
  truncated = truncated;
}

unfoldable pub analyze_graph : (String → String) → AttackGraph → Option AttackGraph
unfolding enumerate_chains with_paths
analyze_graph lower graph =
    Option.map (with_paths graph) (enumerate_chains lower graph.nodes graph.edges)
