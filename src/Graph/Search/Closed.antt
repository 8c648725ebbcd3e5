-- ===== src/Graph/Search/Closed.antt =====
-- A graph whose edges end at its nodes is analyzed without an error.
use mathlib.Core.Option
use ianua_broker.Graph.Model.{edge_kind_Eq, Node, AttackGraph, Edge, EdgeKind, is_entry}
use ianua_broker.Prelude.{
  num_Ord, text_Ord, pair_Ord, list_Ord, text_Eq, pair_Eq, none, some, List, String, has, get,
  of_pairs, All, put, Dict, contains, map, ◌≡◌, All-sorted, Option, add_member, get-put, keys, ◌∙◌,
  All-add_member, ap, if_rule, select, sorted, All-map_pred, has-of_pairs, ◌==◌, All-contains,
  All-select_sub, get-map,
}
use ianua_broker.Graph.Search.Total.{IsSome, visit_entries-IsSome}
use ianua_broker.Prelude.{
  num_Ord, text_Ord, pair_Ord, list_Ord, refl, true, none, some, [], ◌∷◌, text_Eq, num_Eq, pair_Eq,
  option_Eq, list_Eq,
}
use ianua_broker.Graph.Search.{
  analyze_graph, entries_of, search_graph, Successors, add_edges, adjacency_of, enumerate_chains,
  index_nodes, successors_at, Found, nothing_found, successor_key, with_paths, ranked,
}

-- Every edge of the graph ends at a node of it.
abbrev pub EndsAtNodes : List Node → List Edge → Type 0
EndsAtNodes nodes edges =
    All (λ (e : Edge). contains e.dst (map (λ (n : Node). n.id) nodes) ≡ true) edges

module _ {ℓ} (P : String → Type ℓ) where
  abbrev AllEnds : Successors → Type ℓ
  AllEnds successors = All (λ (s : EdgeKind × String). P s.1) successors

  AllEnds-put :
      (edge : Edge) (successors : Successors) (seen : Dict String Successors)
      → AllEnds successors
      → ((src : String) → AllEnds (successors_at src seen))
      → (src : String) → AllEnds (successors_at src (put edge.src successors seen))
  unfolding get put
  AllEnds-put edge successors seen h before src = rw (get-put edge.src src successors seen) (
      if_rule (λ (m : Option Successors). AllEnds (Option.get_or m [])) (edge.src == src)
        (some successors) (get src seen) (λ _. h) (λ _. before src))

  All-add_edges :
      (edges : List Edge) (seen : Dict String Successors)
      → All (λ (e : Edge). P e.dst) edges
      → ((src : String) → AllEnds (successors_at src seen))
      → (src : String) → AllEnds (successors_at src (add_edges edges seen))
  unfolding add_edges
  All-add_edges [] seen h before src = before src
  All-add_edges (edge ∷ edges) seen h before src =
      let successors = add_member (edge.kind, edge.dst) (successors_at edge.src seen) in
      All-add_edges edges (put edge.src successors seen) h.1
        (AllEnds-put edge successors seen
          (All-add_member (λ (s : EdgeKind × String). P s.1) (edge.kind, edge.dst)
            (successors_at edge.src seen) h.0 (before edge.src))
          before)
        src

  All-adjacency_of :
      (edges : List Edge)
      → All (λ (e : Edge). P e.dst) edges
      → (src : String) → AllEnds (successors_at src (adjacency_of edges))
  unfolding adjacency_of get
  All-adjacency_of edges h src =
      let order = λ (successors : Successors). sorted successor_key successors in
      rw (get-map order src (add_edges edges []))
        (go (get src (add_edges edges [])) (All-add_edges edges [] h (λ src'. tt) src))
    where
      go :
          (m : Option Successors)
          → AllEnds (Option.get_or m [])
          → AllEnds
              (Option.get_or (Option.map (λ successors. sorted successor_key successors) m) [])
      go none k = tt
      go (some successors) k =
          All-sorted successor_key (λ (s : EdgeKind × String). P s.1) successors k

-- The index has exactly the ids of the nodes.
has-index_nodes :
    (id : String) (nodes : List Node)
    → has id (index_nodes nodes) ≡ contains id (map (λ (n : Node). n.id) nodes)
unfolding has of_pairs
has-index_nodes id nodes =
    has-of_pairs id (map (λ (n : Node). (n.id, n)) nodes) ∙ ap (contains id) (keys_same nodes)
  where
    keys_same :
        (ns : List Node) → keys (map (λ (n : Node). (n.id, n)) ns) ≡ map (λ (n : Node). n.id) ns
    keys_same [] = refl
    keys_same (n ∷ ns) = ap (λ xs. n.id ∷ xs) (keys_same ns)

entries-known :
    (nodes : List Node) (ids : List String)
    → All (λ (n : Node). contains n.id ids ≡ true) nodes
    → All (λ (id : String). contains id ids ≡ true) (entries_of nodes)
unfolding entries_of
entries-known nodes ids h =
    All-sorted (λ (id : String). id) (λ (id : String). contains id ids ≡ true)
      (map (λ (n : Node). n.id) (select (λ (n : Node). is_entry n.kind) nodes))
      (mapped (select (λ (n : Node). is_entry n.kind) nodes) (
        All-select_sub (λ (n : Node). contains n.id ids ≡ true) (λ (n : Node). is_entry n.kind)
          nodes h))
  where
    mapped :
        (ns : List Node)
        → All (λ (n : Node). contains n.id ids ≡ true) ns
        → All (λ (id : String). contains id ids ≡ true) (map (λ (n : Node). n.id) ns)
    mapped [] k = tt
    mapped (n ∷ ns) k = (k.0, mapped ns k.1)

unmapped :
    (ids : List String) (ns : List Node)
    → All (λ (id : String). contains id ids ≡ true) (map (λ (n : Node). n.id) ns)
    → All (λ (n : Node). contains n.id ids ≡ true) ns
unmapped ids [] k = tt
unmapped ids (n ∷ ns) k = (k.0, unmapped ids ns k.1)

search_graph-IsSome :
    (lower : String → String) (nodes : List Node) (edges : List Edge)
    → EndsAtNodes nodes edges
    → IsSome (search_graph lower nodes edges)
unfolding search_graph
search_graph-IsSome lower nodes edges closed =
    let ids = map (λ (n : Node). n.id) nodes in
    let known = λ (id : String) (h : contains id ids ≡ true). has-index_nodes id nodes ∙ h in
    visit_entries-IsSome lower (index_nodes nodes) (adjacency_of edges) (entries_of nodes)
      nothing_found
      (λ src.
        All-adjacency_of (λ id. has id (index_nodes nodes) ≡ true) edges
          (All-map_pred edges (λ e h. known e.dst h) closed) src)
      (All-map_pred (entries_of nodes) known
        (entries-known nodes ids (unmapped ids nodes (All-contains ids))))

-- On a graph whose edges all end at its nodes the analysis raises no KeyError: it returns the graph
-- with its paths.
pub analyze_graph-returns :
    (lower : String → String) (graph : AttackGraph)
    → EndsAtNodes graph.nodes graph.edges
    → (analyzed : AttackGraph) × (analyze_graph lower graph ≡ some analyzed)
      × (analyzed.nodes ≡ graph.nodes)
      × (analyzed.edges ≡ graph.edges)
unfolding analyze_graph enumerate_chains with_paths
analyze_graph-returns lower graph closed =
    go (search_graph lower graph.nodes graph.edges)
      (search_graph-IsSome lower graph.nodes graph.edges closed)
  where
    go :
        (m : Option Found)
        → IsSome m
        → (analyzed : AttackGraph) × (Option.map (with_paths graph) (Option.map ranked m)
            ≡ some analyzed)
          × (analyzed.nodes ≡ graph.nodes)
          × (analyzed.edges ≡ graph.edges)
    go none h = elim h [ ]
    go (some st) h = (with_paths graph (ranked st), refl, refl, refl)
